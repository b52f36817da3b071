-- ===== src/ImageDatabase/Sequential.antt =====
-- `insertSeq` and `bsp_insert_seq` of examples/imgproc/src/ImageDatabase.cpp: the first process gives
-- the others their parts of an image that it has as a whole.
pub mod Overrun
use activebsp.Base.{
  ℕ, zero, suc, List, [], ◌∷◌, map, length, ltb, slice, size_add, size_sub, if◌then◌else◌, Result,
  ok, fault, out_of_bounds, ◌>>=◌,
}
use activebsp.Pieces.{Chunk}
use activebsp.Store.DataStore.{Bytes}
use activebsp.Distribution.BlockRange.{div_range}
use activebsp.ImageDatabase.{
  Member, each_process, puts_to, share_hashes, gather_parts, store_thumbnail,
}

-- The loop of `insertSeq` from process `i` on: the object, and the puts into `_part`.
unfoldable pub seq_puts : Bytes → Member → ℕ → ℕ → Result (Member × List (ℕ × Chunk))
seq_puts img m i zero = ok (m, [])
seq_puts img m i (suc left) =
    let (beg, end) = div_range m.full_size i m.nprocs in
    let size = size_sub end beg in
    if ltb (length img) (size_add beg size)
    then fault out_of_bounds
    else seq_puts img (record m { part_size = size_sub end m.part_offset }) (suc i) left >>= λ done.
        let (m', puts) = done in
        ok (m', (i, record { offset = 0; bytes = slice beg size img }) ∷ puts)

module _ (hash_part : Bytes → ℕ) (hash_procs : Bytes → ℕ)
    (deliver : List Chunk → Bytes → Bytes) where
  -- `bsp_insert_seq` on all the processes, which begins with the barrier at which the parts arrive.
  unfoldable pub bsp_insert_seq : List (ℕ × Chunk) → List Member → Result (List Member)
  unfolding gather_parts share_hashes store_thumbnail each_process puts_to
  bsp_insert_seq puts ms =
      let ms1 = map (λ (m : Member). record m { part = deliver (puts_to m.pid puts) m.part }) ms in
      gather_parts hash_part hash_procs deliver (share_hashes hash_part hash_procs deliver ms1)
      >>= λ ms2. each_process (store_thumbnail hash_part hash_procs) ms2

  -- `insertSeq`, on the first process and with the others behind it.
  unfoldable pub insert_seq : Bytes → List Member → Result (List Member)
  unfolding seq_puts bsp_insert_seq
  insert_seq img [] = ok []
  insert_seq img (m ∷ others) = seq_puts img m 0 m.nprocs >>= λ done.
      let (m', puts) = done in bsp_insert_seq puts (m' ∷ others)
