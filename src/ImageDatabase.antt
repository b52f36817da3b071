-- ===== src/ImageDatabase.antt =====
-- The image database of examples/imgproc/src/ImageDatabase.cpp and ImageDatabase.h: an actor whose
-- processes hold the parts of a hash table of images. The times that it logs are left out. A thumbnail is
-- listed in the table by its bytes: the code keeps a pointer to an element of `_thumbnails`, which
-- never changes and is never removed.
pub mod Slots
pub mod Delivery
pub mod Gathering
pub mod Gathered
pub mod Stages
pub mod Buckets
pub mod Represents
pub mod Places
pub mod Inserts
pub mod History
pub mod Sequential
pub mod Files
use activebsp.Base.{
  ℕ, zero, suc, ◌-◌, ◌+◌, ◌*◌, ◌/◌, ◌%◌, ◌==◌, Bool, true, false, List, [], ◌∷◌, ◌++◌, map, length,
  ltb, leb, replicate, take, copy_into, none, some, get_elem?, to_int, to_size, int_mul, size_add,
  size_sub, size_mul, if◌then◌else◌, Result, ok, fault, out_of_bounds, length_error, ◌>>=◌,
}
use activebsp.Pieces.{Chunk}
use activebsp.Store.DataStore.{Bytes}
use activebsp.Message.Fields.{size_bytes}
use activebsp.Distribution.BlockRange.{div_range}

-- `HASH_SIZE`.
abbrev pub hash_size : ℕ
hash_size = 12289

-- The longest vector of lists, which take 24 bytes each.
abbrev pub max_lists : ℕ
max_lists = 384307168202282325

-- The object of one process, without what it keeps for its log.
pub record Member : Type 0 where
  pub pid : ℕ
  pub nprocs : ℕ
  pub full_size : ℕ
  pub part_offset : ℕ
  pub part_size : ℕ
  pub procs_buf : Bytes
  pub global_match : ℕ
  pub thumbnails : List Bytes
  pub hash_table : List (List Bytes)
  pub hash_start : ℕ
  pub nhash : ℕ
  pub hash_block : ℕ
  pub thumbnail_buf : Bytes
  pub part : Bytes

-- `_hash_block` of the constructor, on `p` processes, and `_nhash` of the process that starts at
-- `start`.
unfoldable pub block_of : ℕ → ℕ
block_of p = if hash_size % p == 0 then hash_size / p else hash_size / p + 1

unfoldable pub nhash_of : ℕ → ℕ → ℕ
nhash_of block start =
    if leb (size_add start block) hash_size then block else size_sub hash_size start

-- The constructor, on process `s` of `p`. What it does not set is 0.
unfoldable pub image_database : ℕ → ℕ → Result Member
image_database s p =
    let start = size_mul (block_of p) s in
    let nhash = nhash_of (block_of p) start in
    if leb nhash max_lists
    then ok (record {
      pid = s;
      nprocs = p;
      full_size = 0;
      part_offset = 0;
      part_size = 0;
      procs_buf = replicate (8 * p) 0;
      global_match = 0;
      thumbnails = [];
      hash_table = replicate nhash [];
      hash_start = start;
      nhash = nhash;
      hash_block = block_of p;
      thumbnail_buf = [];
      part = [];
    })
    else fault length_error

-- `vector::resize`.
abbrev pub resized : ℕ → Bytes → Bytes
resized n v = take n v ++ replicate (n - length v) 0

-- `bsp_set_img_params` on a process, with the width and the height that it has or gets.
unfoldable pub bsp_set_img_params : ℕ → ℕ → Member → Member
bsp_set_img_params width height m =
    let full_size = to_size (int_mul width height) in
    let (beg, end) = div_range full_size m.pid m.nprocs in
    record m {
      full_size = full_size;
      part_offset = beg;
      part_size = size_sub end beg;
      part = resized (size_sub end beg) m.part;
      thumbnail_buf = resized full_size m.thumbnail_buf;
    }

-- The actor's processes from `s` on, after the constructor and `setImgParams`.
unfoldable pub database : ℕ → ℕ → ℕ → ℕ → ℕ → Result (List Member)
unfolding image_database bsp_set_img_params
database p width height s zero = ok []
database p width height s (suc count) = image_database s p >>= λ m.
    database p width height (suc s) count >>= λ ms. ok (bsp_set_img_params width height m ∷ ms)

-- `std::equal` of a stored thumbnail and the front of the buffer.
unfoldable pub equal : Bytes → Bytes → Result Bool
equal [] buf = ok true
equal (x ∷ xs) [] = fault out_of_bounds
equal (x ∷ xs) (y ∷ ys) = let rest = equal xs ys in if x == y then rest else ok false

-- The loop that looks for the thumbnail in an entry.
unfoldable pub find_in : Bytes → List Bytes → Result Bool
unfolding equal
find_in buf [] = ok false
find_in buf (it ∷ entry) =
    equal it buf >>= λ same. let rest = find_in buf entry in if same then ok true else rest

-- `_hashTable[i]`, and a new value for it.
unfoldable pub entry_at : List (List Bytes) → ℕ → Result (List Bytes)
entry_at table i = elim (get_elem? table i) [ none ↦ fault out_of_bounds | some entry ↦ ok entry ]

unfoldable pub set_entry : List (List Bytes) → ℕ → List Bytes → List (List Bytes)
set_entry [] i entry = []
set_entry (e ∷ table) zero entry = entry ∷ table
set_entry (e ∷ table) (suc i) entry = e ∷ set_entry table i entry

-- One step of each process between two barriers.
unfoldable pub each_process {ℓ} :
    {A : Type 0} {B : Type ℓ} → (A → Result B) → List A → Result (List B)
each_process f [] = ok []
each_process f (m ∷ ms) = f m >>= λ x. each_process f ms >>= λ xs. ok (x ∷ xs)

-- The puts to process `dst`.
unfoldable pub puts_to : ℕ → List (ℕ × Chunk) → List Chunk
puts_to dst [] = []
puts_to dst ((to, c) ∷ puts) = if to == dst then c ∷ puts_to dst puts else puts_to dst puts

-- `dv_get_part(_dv, _part_offset, &_part[0], _part_size)`, where `get_part` gives a range of the
-- image.
unfoldable pub read_part : (ℕ → ℕ → Bytes) → Member → Result Member
read_part get_part m =
    if ltb (length m.part) m.part_size
    then fault out_of_bounds
    else ok (record m { part = copy_into m.part 0 (get_part m.part_offset m.part_size) })

-- `bsp_put` of the local hash, which goes to every process, and of the part. `hash_part` and
-- `hash_procs` are `boost::hash_range` of the part and of the buffer of hashes.
module _ (hash_part : Bytes → ℕ) (hash_procs : Bytes → ℕ) where
  unfoldable pub put_hash : Member → Chunk
  put_hash m = record { offset = m.pid * 8; bytes = size_bytes (hash_part m.part) }

  unfoldable pub modulus_hash : Member → ℕ
  modulus_hash m = hash_procs m.procs_buf % hash_size

  unfoldable pub dst_proc : Member → ℕ
  unfolding modulus_hash
  dst_proc m = to_int (modulus_hash m / m.hash_block)

  unfoldable pub put_part : Member → Result (ℕ × Chunk)
  unfolding dst_proc
  put_part m =
      if ltb (length m.part) m.part_size
      then fault out_of_bounds
      else ok (dst_proc m, record { offset = m.part_offset; bytes = take m.part_size m.part })

  -- What `dst_proc` does with the image that it has gathered in `bsp_insert`, and in `bsp_exist`.
  unfoldable pub store_thumbnail : Member → Result Member
  unfolding entry_at find_in set_entry modulus_hash dst_proc
  store_thumbnail m =
      if m.pid == dst_proc m
      then (let i = size_sub (modulus_hash m) m.hash_start in
          entry_at m.hash_table i >>= λ entry. find_in m.thumbnail_buf entry >>= λ found.
          ok (record m {
            thumbnails = m.thumbnails ++ (m.thumbnail_buf ∷ []);
            hash_table =
                if found
                then m.hash_table
                else set_entry m.hash_table i (entry ++ (m.thumbnail_buf ∷ []));
          }))
      else ok m

  -- What a process puts into `_global_match` of the first one, once for each process.
  unfoldable pub put_match : Member → Result (List Bool)
  unfolding entry_at find_in modulus_hash dst_proc
  put_match m =
      if m.pid == dst_proc m
      then (entry_at m.hash_table (size_sub (modulus_hash m) m.hash_start) >>= λ entry.
          find_in m.thumbnail_buf entry >>= λ found. ok (replicate m.nprocs found))
      else ok []

  -- `deliver` is what the puts into a buffer make of it at a barrier.
  module _ (deliver : List Chunk → Bytes → Bytes) where
    -- The two barriers after which `dst_proc` has the image.
    unfoldable pub share_hashes : List Member → List Member
    unfolding put_hash
    share_hashes ms =
        map (λ (m : Member). record m { procs_buf = deliver (map put_hash ms) m.procs_buf }) ms

    unfoldable pub gather_parts : List Member → Result (List Member)
    unfolding put_part puts_to each_process
    gather_parts ms = each_process put_part ms >>= λ puts. ok (
        map
          (λ (m : Member). record m {
            thumbnail_buf = deliver (puts_to m.pid puts) m.thumbnail_buf;
          })
          ms)

    -- `bsp_insert` on all the processes, which have the distribution of the image by `broadcast_dv`.
    unfoldable pub bsp_insert : (ℕ → ℕ → Bytes) → List Member → Result (List Member)
    unfolding read_part share_hashes gather_parts store_thumbnail each_process
    bsp_insert get_part ms = each_process (read_part get_part) ms >>= λ ms1.
        gather_parts (share_hashes ms1) >>= λ ms2. each_process store_thumbnail ms2

    -- `bsp_exist`: the processes, and what is put into `_global_match`, which `exist` returns.
    unfoldable pub bsp_exist :
        (ℕ → ℕ → Bytes) → List Member → Result (List Member × List (List Bool))
    unfolding read_part share_hashes gather_parts put_match each_process
    bsp_exist get_part ms = each_process (read_part get_part) ms >>= λ ms1.
        gather_parts (share_hashes ms1) >>= λ ms2.
        each_process put_match ms2 >>= λ matches. ok (ms2, matches)
