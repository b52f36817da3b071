-- ===== src/ImageDatabase/Represents.antt =====
-- What a process of the database holds after some images were inserted, and that the constructor
-- and `setImgParams` begin with no image.
use activebsp.Base.{
  ℕ, zero, suc, ◌+◌, ◌-◌, ◌*◌, ◌%◌, ◌<◌, ◌≡◌, refl, ap, ◌∙◌, arith, List, [], ◌∷◌, ◌++◌, map,
  length, length-append, length-take, length-replicate, replicate, take, slice, int_min, leb,
  to_size, int_mul, size_sub, true, Result, ok,
}
use activebsp.Distribution.BlockRange.{div_range, block_begin}
use activebsp.Distribution.BlockRange.Bounds.{div_range-block_begin, block_begin_le}
use activebsp.Store.DataStore.{Bytes}
use activebsp.Message.Fields.{size_bytes}
use activebsp.ImageDatabase.{
  Member, hash_size, block_of, nhash_of, max_lists, image_database, resized, bsp_set_img_params,
  each_process,
}
use activebsp.ImageDatabase.Slots.{IsRoomy, size_mul-start, nhash_of_lem}
use activebsp.ImageDatabase.Buckets.{table_of}

-- A predicate of each process and its number, the numbers counting up from `s`.
abbrev pub Ranked : (ℕ → Member → Type 0) → ℕ → List Member → Type 0
Ranked P s [] = Unit
Ranked P s (m ∷ ms) = P s m × Ranked P (suc s) ms

pub map-Ranked :
    (P Q : ℕ → Member → Type 0) (f : Member → Member) (s : ℕ) (ms : List Member)
    → ((r : ℕ) (m : Member) → P r m → Q r (f m))
    → Ranked P s ms
    → Ranked Q s (map f ms)
map-Ranked P Q f s [] h r = tt
map-Ranked P Q f s (m ∷ ms) h (r, rs) = (h s m r, map-Ranked P Q f (suc s) ms h rs)

pub each_process-Ranked :
    (P Q : ℕ → Member → Type 0) (f : Member → Result Member) (s : ℕ) (ms : List Member)
    → ((r : ℕ) (m : Member) → P r m → (m' : Member) × (f m ≡ ok m') × Q r m')
    → Ranked P s ms
    → (ms' : List Member) × (each_process f ms ≡ ok ms') × (length ms' ≡ length ms) × Ranked Q s ms'
unfolding each_process
each_process-Ranked P Q f s [] h r = ([], refl, refl, tt)
each_process-Ranked P Q f s (m ∷ ms) h (r, rs) =
    let (m', now, q) = h s m r in
    let (ms', later, count, qs) = each_process-Ranked P Q f (suc s) ms h rs in
    (m' ∷ ms', rw (now, later) refl, ap suc count, (q, qs))

-- The block of a process, in an image of `n` bytes on `p` processes.
abbrev pub size_at : ℕ → ℕ → ℕ → ℕ
size_at n p s = block_begin n p (s + 1) - block_begin n p s

abbrev pub part_at : ℕ → ℕ → ℕ → Bytes → Bytes
part_at n p s img = slice (block_begin n p s) (size_at n p s) img

module _ (hash_part : Bytes → ℕ) (hash_procs : Bytes → ℕ) (n p : ℕ) where
  -- The buffer of hashes of the processes from `s` on.
  abbrev pub words : Bytes → ℕ → ℕ → Bytes
  words img s zero = []
  words img s (suc count) = size_bytes (hash_part (part_at n p s img)) ++ words img (suc s) count

  -- The hash value of an image, which decides where it is kept.
  abbrev pub slot_of : Bytes → ℕ
  slot_of img = hash_procs (words img 0 p) % hash_size

  pub record Represents (imgs : List Bytes) (s : ℕ) (m : Member) : Type 0 where
    pub inside : s < p
    pub pid : m.pid ≡ s
    pub nprocs : m.nprocs ≡ p
    pub full_size : m.full_size ≡ n
    pub part_offset : m.part_offset ≡ block_begin n p s
    pub part_size : m.part_size ≡ size_at n p s
    pub part : length m.part ≡ size_at n p s
    pub procs_buf : length m.procs_buf ≡ 8 * p
    pub thumbnail_buf : length m.thumbnail_buf ≡ n
    pub hash_start : m.hash_start ≡ block_of p * s
    pub hash_block : m.hash_block ≡ block_of p
    pub hash_table :
        m.hash_table
        ≡ table_of slot_of imgs (block_of p * s) (nhash_of (block_of p) (block_of p * s))

  length-resized : (k : ℕ) (v : Bytes) → length (resized k v) ≡ k
  length-resized k v = omega (
    arith,
    length-append (take k v) (replicate (k - length v) 0),
    length-take k v,
    length-replicate {A = ℕ} (k - length v) 0,
  )

  pub table_of-empty : (start count : ℕ) → replicate count [] ≡ table_of slot_of [] start count
  table_of-empty start zero = refl
  table_of-empty start (suc count) = ap (λ table. [] ∷ table) (table_of-empty (suc start) count)

  abbrev pub empty_member : ℕ → Member
  empty_member s = record {
    pid = s;
    nprocs = p;
    full_size = 0;
    part_offset = 0;
    part_size = 0;
    procs_buf = replicate (8 * p) 0;
    global_match = 0;
    thumbnails = [];
    hash_table = replicate (nhash_of (block_of p) (block_of p * s)) [];
    hash_start = block_of p * s;
    nhash = nhash_of (block_of p) (block_of p * s);
    hash_block = block_of p;
    thumbnail_buf = [];
    part = [];
  }

  pub image_database_lem : (s : ℕ) → IsRoomy p → s < p → image_database s p ≡ ok (empty_member s)
  unfolding image_database
  image_database_lem s v h =
      let few : leb (nhash_of (block_of p) (block_of p * s)) max_lists ≡ true =
        ground (arith, nhash_of_lem p v s h) in
      rw (size_mul-start p v s h, few) refl

  -- The sizes on `p` processes, for images of `width` by `height` pixels.
  pub set_img_params-Represents :
      (s width height : ℕ)
      → IsRoomy p
      → n ≡ width * height
      → n < int_min
      → s < p
      → Represents [] s (bsp_set_img_params width height (empty_member s))
  unfolding bsp_set_img_params
  set_img_params-Represents s width height v e small h =
      let size : to_size (int_mul width height) ≡ n = ground (arith, e, small) in
      let blocks : div_range (to_size (int_mul width height)) s p
          ≡ (block_begin n p s, block_begin n p (s + 1)) =
        ap (λ k. div_range k s p) size ∙ div_range-block_begin n s p h v.few small in
      let (up, last) = block_begin_le n p s h in
      let part_size : size_sub (div_range (to_size (int_mul width height)) s p).1
            (div_range (to_size (int_mul width height)) s p).0
          ≡ size_at n p s =
        ap (λ (r : ℕ × ℕ). size_sub r.1 r.0) blocks ∙ omega (arith, up, last, small) in
      record {
        inside = h;
        pid = refl;
        nprocs = refl;
        full_size = size;
        part_offset = ap (λ (r : ℕ × ℕ). r.0) blocks;
        part_size = part_size;
        part = length-resized _ [] ∙ part_size;
        procs_buf = length-replicate {A = ℕ} (8 * p) 0;
        thumbnail_buf = length-resized _ [] ∙ size;
        hash_start = refl;
        hash_block = refl;
        hash_table = table_of-empty (block_of p * s) (nhash_of (block_of p) (block_of p * s));
      }
