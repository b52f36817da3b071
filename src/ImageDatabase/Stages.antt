-- ===== src/ImageDatabase/Stages.antt =====
-- What the processes hold once they have read their parts and shared the hashes, in `bsp_insert`
-- and `bsp_exist`.
use activebsp.Base.{
  ℕ, suc, ◌+◌, ◌*◌, ◌/◌, ◌%◌, ◌≤◌, ◌≡◌, refl, sym, ap, ap₂, ◌∙◌, arith, List, [], ◌∷◌, map, length,
  slice, copy_into, copy_into_all, ltb, false, to_int, ok,
}
use native.Mathlib.Nat.{mod-lt}
use activebsp.Pieces.{Chunk}
use activebsp.Store.DataStore.{Bytes}
use activebsp.Message.Fields.{size_bytes}
use activebsp.Distribution.BlockRange.{block_begin}
use activebsp.Distribution.BlockRange.Bounds.{block_begin_le}
use activebsp.ImageDatabase.{
  Member, hash_size, block_of, nhash_of, read_part, put_hash, modulus_hash, dst_proc, share_hashes,
}
use activebsp.ImageDatabase.Slots.{IsRoomy, slot_lem}
use activebsp.ImageDatabase.Delivery.{Delivers, deliver-whole}
use activebsp.ImageDatabase.Buckets.{table_of}
use activebsp.ImageDatabase.Represents.{
  Ranked, map-Ranked, size_at, part_at, words, slot_of, Represents,
}
use activebsp.ImageDatabase.Gathering.{
  hash_pieces, length-words, hash_pieces-IsPieceOf, hash_pieces-Covers, length-part_at,
}

module _ (hash_part : Bytes → ℕ) (hash_procs : Bytes → ℕ) (n p : ℕ) (imgs : List Bytes) where
  -- The fields that an insertion changes, replaced.
  pub updated :
      (imgs' : List Bytes) (s : ℕ) (m : Member) (part procs_buf thumbnail_buf : Bytes)
      (thumbnails : List Bytes) (hash_table : List (List Bytes))
      → Represents hash_part hash_procs n p imgs s m
      → length part ≡ size_at n p s
      → length procs_buf ≡ 8 * p
      → length thumbnail_buf ≡ n
      → hash_table
        ≡ table_of
            (slot_of hash_part hash_procs n p)
            imgs'
            (block_of p * s)
            (nhash_of (block_of p) (block_of p * s))
      → Represents hash_part hash_procs n p imgs' s (record m {
        part = part;
        procs_buf = procs_buf;
        thumbnail_buf = thumbnail_buf;
        thumbnails = thumbnails;
        hash_table = hash_table;
      })
  updated imgs' s m part procs_buf thumbnail_buf thumbnails hash_table r a b c h = record {
    inside = r.inside;
    pid = r.pid;
    nprocs = r.nprocs;
    full_size = r.full_size;
    part_offset = r.part_offset;
    part_size = r.part_size;
    part = a;
    procs_buf = b;
    thumbnail_buf = c;
    hash_start = r.hash_start;
    hash_block = r.hash_block;
    hash_table = h;
  }

  module _ (img : Bytes) (sized : length img ≡ n) (roomy : IsRoomy p) where
    -- The process on which the image belongs.
    abbrev pub home : ℕ
    home = slot_of hash_part hash_procs n p img / block_of p

    abbrev pub HasPart : ℕ → Member → Type 0
    HasPart s m = Represents hash_part hash_procs n p imgs s m × (m.part ≡ part_at n p s img)

    abbrev pub Knows : ℕ → Member → Type 0
    Knows s m = HasPart s m × (m.procs_buf ≡ words hash_part hash_procs n p img 0 p)

    abbrev pub HasImage : ℕ → Member → Type 0
    HasImage s m =
        Represents hash_part hash_procs n p imgs s m
        × (m.procs_buf ≡ words hash_part hash_procs n p img 0 p)
        × (home ≡ s → m.thumbnail_buf ≡ img)

    pub read_part-HasPart :
        (get_part : ℕ → ℕ → Bytes) (s : ℕ) (m : Member)
        → ((offset size : ℕ) → offset + size ≤ n → get_part offset size ≡ slice offset size img)
        → Represents hash_part hash_procs n p imgs s m
        → (m' : Member) × (read_part get_part m ≡ ok m') × HasPart s m'
    unfolding read_part
    read_part-HasPart get_part s m gets r =
        let (up, last) = block_begin_le n p s r.inside in
        let fits : ltb (length m.part) m.part_size ≡ false = ground (arith, r.part, r.part_size) in
        let got : get_part m.part_offset m.part_size ≡ part_at n p s img =
          ap₂ get_part r.part_offset r.part_size
          ∙ gets (block_begin n p s) (size_at n p s) (omega (arith, up, last)) in
        let size = length-part_at hash_part hash_procs n p img sized s r.inside in
        let copied : copy_into m.part 0 (get_part m.part_offset m.part_size) ≡ part_at n p s img =
          ap (copy_into m.part 0) got
          ∙ copy_into_all m.part (part_at n p s img) (size ∙ sym r.part) in
        (
          record m { part = copy_into m.part 0 (get_part m.part_offset m.part_size) },
          rw fits refl,
          (
            updated imgs s m _ m.procs_buf m.thumbnail_buf m.thumbnails m.hash_table r
                (ap length copied ∙ size) r.procs_buf r.thumbnail_buf r.hash_table,
            copied,
          ),
        )

    put_hashes :
        (s : ℕ) (ms : List Member)
        → Ranked HasPart s ms
        → map (put_hash hash_part hash_procs) ms
          ≡ hash_pieces hash_part hash_procs n p img s (length ms)
    unfolding put_hash
    put_hashes s [] h = refl
    put_hashes s (m ∷ ms) ((r, e), hs) =
        let chunk : ℕ → Bytes → Chunk =
          λ a b. record { offset = a * 8; bytes = size_bytes (hash_part b) } in
        ap₂ ◌∷◌ (ap₂ chunk r.pid e) (put_hashes (suc s) ms hs)

    pub dst_proc-home :
        (s : ℕ) (m : Member)
        → Represents hash_part hash_procs n p imgs s m
        → m.procs_buf ≡ words hash_part hash_procs n p img 0 p
        → (modulus_hash hash_part hash_procs m ≡ slot_of hash_part hash_procs n p img)
          × (dst_proc hash_part hash_procs m ≡ home)
    unfolding dst_proc modulus_hash
    dst_proc-home s m r e =
        let slot = ap (λ b. hash_procs b % hash_size) e in
        let small =
          mod-lt (hash_procs (words hash_part hash_procs n p img 0 p)) {m = hash_size}
            (omega arith) in
        (
          slot,
          ap₂ (λ k b. to_int (k / b)) slot r.hash_block
              ∙ (slot_lem p roomy (slot_of hash_part hash_procs n p img) small).0,
        )

    module _ (deliver : List Chunk → Bytes → Bytes) (v : Delivers deliver) where
      pub share_hashes-Knows :
          (ms : List Member)
          → length ms ≡ p
          → Ranked HasPart 0 ms
          → Ranked Knows 0 (share_hashes hash_part hash_procs deliver ms)
      unfolding share_hashes
      share_hashes-Knows ms count h =
          let puts : map (put_hash hash_part hash_procs) ms
              ≡ hash_pieces hash_part hash_procs n p img 0 p =
            put_hashes 0 ms h ∙ ap (hash_pieces hash_part hash_procs n p img 0) count in
          let whole = words hash_part hash_procs n p img 0 p in
          let long = length-words hash_part hash_procs n p img 0 p in
          map-Ranked HasPart Knows _ 0 ms
            (λ s m has.
              let (r, e) = has in
              let same =
                ap (λ cs. deliver cs m.procs_buf) puts
                ∙ deliver-whole deliver v whole m.procs_buf _ (r.procs_buf ∙ sym long)
                    (hash_pieces-IsPieceOf hash_part hash_procs n p img [] 0 p refl)
                    (λ i lt.
                      hash_pieces-Covers hash_part hash_procs n p img 0 p i (omega arith)
                        (omega (arith, long, lt))) in
              (
                (
                  updated imgs s m m.part _ m.thumbnail_buf m.thumbnails m.hash_table r r.part
                      (ap length same ∙ long) r.thumbnail_buf r.hash_table,
                  e,
                ),
                same,
              ))
            h
