-- ===== src/Communicator/Reads.antt =====
-- A read of a range of a distributed vector, `dv_get_part` of MPIActorCommunicator.cpp.
use activebsp.Base.{
  ℕ, ◌≡◌, refl, ◌∙◌, ap, sym, inl, inr, ◌≤◌, ◌<◌, ◌+◌, List, [], ◌∷◌, ◌++◌, arith, All, Any,
  All-append, Any-append_left, Any-append_right, length, slice, length-slice, int_min, size_add,
  map, ok,
}
use activebsp.Pieces.{copy_all, copy_all-whole}
use activebsp.Distribution.VectorDistribution.{VectorDistribution, all_parts}
use activebsp.Store.DataStore.{Bytes}
use activebsp.Communicator.{Request, requests, local_requests, remote_requests, posted, dv_get_part}
use activebsp.Communicator.Grouping.{local_requests-All, remote_requests-All, requests_divided}
use activebsp.Communicator.Answers.{
  IsHeld, HasByte, Good, Brings, chunk, requests-Good, requests_bring, receive_remote-Good,
  read_local-Good, chunks-IsPieceOf, chunks_cover,
}

module _ (stored : ℕ → ℕ → Bytes) (whole : Bytes) where
  copy_all-append :
      (offset n : ℕ) (xs ys : List Request) (buf : Bytes)
      → copy_all
          (copy_all buf (map (chunk stored whole offset n) xs))
          (map (chunk stored whole offset n) ys)
        ≡ copy_all buf (map (chunk stored whole offset n) (xs ++ ys))
  copy_all-append offset n [] ys buf = refl
  copy_all-append offset n (x ∷ xs) ys buf = copy_all-append offset n xs ys _

  -- `dv_get_part` fills its buffer with the bytes of the vector from `offset` on, whichever process
  -- reads and in whatever order the parts stand in the distribution, where the vector is shorter than
  -- 2 ^ 31 bytes, the range lies in it, the owner of each part holds the bytes of its place, and each
  -- byte of the range stands in a part.
  pub dv_get_part_lem :
      (pid offset : ℕ) (dv : VectorDistribution) (out_buf : Bytes)
      → length whole < int_min
      → offset + length out_buf ≤ length whole
      → All (IsHeld stored whole) (all_parts dv)
      → ((i : ℕ) → i < length out_buf → Any (HasByte stored whole (offset + i)) (all_parts dv))
      → dv_get_part stored pid dv offset out_buf ≡ ok (slice offset (length out_buf) whole)
  unfolding dv_get_part
  dv_get_part_lem pid offset dv out_buf small fits held covers =
      let n = length out_buf in
      let parts = all_parts dv in
      let no_wrap : size_add offset n ≡ offset + n = omega arith in
      let rs = requests offset (offset + n) parts in
      let here = local_requests pid rs in
      let there = posted (remote_requests pid rs []) in
      let good = requests-Good stored whole offset n parts small fits held in
      let good_here = local_requests-All (Good stored whole offset n) pid rs good in
      let good_there = remote_requests-All (Good stored whole offset n) pid rs [] good tt in
      let target = length-slice offset n whole fits in
      rw
        (
          no_wrap,
          receive_remote-Good stored whole offset n there good_there,
          read_local-Good stored whole offset n here good_here,
        )
        (ap ok (
          copy_all-append offset n here there out_buf
          ∙ copy_all-whole (slice offset n whole) out_buf
              (map (chunk stored whole offset n) (here ++ there)) (sym target)
              (chunks-IsPieceOf stored whole offset n (here ++ there) fits
                (All-append (Good stored whole offset n) here there good_here good_there))
              (λ i lt.
                chunks_cover stored whole offset n (here ++ there) i
                  (All-append (Good stored whole offset n) here there good_here good_there)
                  (elim (requests_divided (Brings stored whole offset n i) pid rs [] (
                    requests_bring stored whole offset n parts i small fits
                      (omega (arith, target, lt)) held (covers i (omega (arith, target, lt))))) [
                        | inl k ↦ Any-append_left (Brings stored whole offset n i) here there k
                        | inr k ↦ Any-append_right (Brings stored whole offset n i) here there k
                      ]))))
