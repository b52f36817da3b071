-- ===== src/Worker/Results/Gather.antt =====
-- `gather_distr_parts`: the parts of all processes in the table of one.
use activebsp.Base.{
  ℕ, zero, suc, ◌+◌, ◌-◌, ◌*◌, ◌≤◌, ◌<◌, ◌≡◌, sym, ap, ap₂, ◌∙◌, arith, List, [], ◌++◌, length,
  take, drop, replicate, slice, copy_into, All, All-append, length-append, append_assoc, append-nil,
  take-append_le, take_all, drop-append_ge, drop-drop, copy_into-end, length-replicate,
}
use activebsp.Distribution.VectorDistribution.{
  Part, VectorDistribution, zero_part, vector_distribution,
}
use activebsp.Store.DataStore.{Bytes}
use activebsp.Message.Fields.{int_bytes}
use activebsp.Worker.Results.{
  table_bytes, dv_bytes, parts_offset, parts_size, gather_from, gather_distr_parts,
}
use activebsp.Worker.Results.Table.{
  IsNear, early_table, length-early_table, early_table-append, table_bytes-early,
}

replicate-IsNear : (n : ℕ) → All IsNear (replicate n zero_part)
replicate-IsNear zero = tt
replicate-IsNear (suc n) = (omega arith, replicate-IsNear n)

-- What each process registered, by its number.
module _ (registered : ℕ → VectorDistribution) where
  -- The parts of `left` processes from `s` on.
  abbrev pub collected : ℕ → ℕ → List Part
  collected s zero = []
  collected s (suc left) = (registered s).parts ++ collected (suc s) left

  -- The processes below `nprocs` have `nparts` parts each, with offsets below 2 ^ 32.
  pub record AreReady (nparts nprocs : ℕ) : Type 0 where
    pub count : (s : ℕ) → s < nprocs → length (registered s).parts ≡ nparts
    pub near : (s : ℕ) → s < nprocs → All IsNear (registered s).parts

  collected-IsNear :
      {nparts nprocs : ℕ}
      → AreReady nparts nprocs
      → (s left : ℕ) → s + left ≤ nprocs
      → All IsNear (collected s left)
  collected-IsNear v s zero h = tt
  collected-IsNear v s (suc left) h =
      All-append IsNear (registered s).parts (collected (suc s) left) (v.near s (omega arith))
        (collected-IsNear v (suc s) left (omega arith))

  -- What one `bsp_get` brings.
  slice_early :
      (nparts nprocs s : ℕ)
      → AreReady nparts nprocs
      → s < nprocs
      → slice parts_offset (nparts * parts_size) (dv_bytes (registered s))
        ≡ early_table (registered s).parts
  slice_early nparts nprocs s v h =
      let parts = (registered s).parts in
      let n : nparts * parts_size ≡ length (early_table parts) =
        omega (arith, length-early_table parts, v.count s h) in
      ap₂ take n (table_bytes-early parts (v.near s h))
      ∙ take-append_le (length (early_table parts)) (early_table parts) (int_bytes 0) (omega arith)
      ∙ take_all (length (early_table parts)) (early_table parts) (omega arith)

  module _ (bsp_get : ℕ → ℕ → ℕ → Bytes) where
    gather_from_lem :
        (nparts nprocs s left : ℕ) (done room : Bytes)
        → ((pid offset n : ℕ) → bsp_get pid offset n ≡ slice offset n (dv_bytes (registered pid)))
        → AreReady nparts nprocs
        → s + left ≤ nprocs
        → length done ≡ parts_offset + s * (nparts * parts_size)
        → gather_from bsp_get (nparts * parts_size) s left (done ++ room)
          ≡ (done ++ early_table (collected s left)) ++ drop (left * (nparts * parts_size)) room
    unfolding gather_from
    gather_from_lem nparts nprocs s zero done room copies v inside at =
        let none_left : 0 ≡ 0 * (nparts * parts_size) = omega arith in
        ap₂ (λ xs n. xs ++ drop n room) (sym (append-nil done)) none_left
    gather_from_lem nparts nprocs s (suc left) done room copies v inside at =
        let size = nparts * parts_size in
        let early = early_table (registered s).parts in
        let later = early_table (collected (suc s) left) in
        let brought : bsp_get s parts_offset size ≡ early =
          copies s parts_offset size ∙ slice_early nparts nprocs s v (omega arith) in
        let n : length early ≡ size =
          omega (arith, length-early_table (registered s).parts, v.count s (omega arith)) in
        let behind : length (done ++ early) ≡ parts_offset + suc s * size =
          omega (arith, length-append done early, n, at) in
        let skipped : length early + left * size ≡ suc left * size = omega (arith, n) in
        ap₂ (λ to bytes. gather_from bsp_get size (suc s) left (copy_into (done ++ room) to bytes))
          (sym at) brought
        ∙ ap (gather_from bsp_get size (suc s) left) (copy_into-end done room early)
        ∙ gather_from_lem nparts nprocs (suc s) left (done ++ early) (drop (length early) room)
            copies v (omega arith) behind
        ∙ ap₂ (λ xs ys. xs ++ ys)
            (append_assoc done early later
              ∙ ap (λ bytes. done ++ bytes)
                  (sym (early_table-append (registered s).parts (collected (suc s) left))))
            (drop-drop (left * size) (length early) room ∙ ap (λ m. drop m room) skipped)

    -- Each of `nprocs` processes has registered `nparts` parts with offsets below 2 ^ 32, and the gets
    -- copy the bytes of their buffers: what is gathered is the buffer of the distribution that has
    -- the parts of all processes, in the order of the processes.
    pub gather_distr_parts_lem :
        (nparts nprocs : ℕ)
        → ((pid offset n : ℕ) → bsp_get pid offset n ≡ slice offset n (dv_bytes (registered pid)))
        → AreReady nparts nprocs
        → gather_distr_parts bsp_get nparts nprocs
          ≡ dv_bytes (record { nelem = nparts * nprocs; parts = collected 0 nprocs })
    unfolding gather_distr_parts vector_distribution
    gather_distr_parts_lem nparts nprocs copies v =
        let n = nparts * nprocs in
        let zeros = replicate n zero_part in
        let count = int_bytes n in
        let parts = collected 0 nprocs in
        let at : length count ≡ parts_offset + 0 * (nparts * parts_size) = omega arith in
        let full : nprocs * (nparts * parts_size) ≡ length (early_table zeros) =
          omega (arith, length-early_table zeros, length-replicate n zero_part) in
        let nothing : length (early_table zeros) - length (early_table zeros) ≡ 0 = omega arith in
        let left : drop (nprocs * (nparts * parts_size)) (int_bytes 0 ++ table_bytes zeros)
            ≡ int_bytes 0 =
          ap₂ drop full (table_bytes-early zeros (replicate-IsNear n))
          ∙ drop-append_ge (length (early_table zeros)) (early_table zeros) (int_bytes 0)
              (omega arith)
          ∙ ap (λ m. drop m (int_bytes 0)) nothing in
        gather_from_lem nparts nprocs 0 nprocs count (int_bytes 0 ++ table_bytes zeros) copies v
          (omega arith) at
        ∙ ap (λ bytes. (count ++ early_table parts) ++ bytes) left
        ∙ append_assoc count (early_table parts) (int_bytes 0)
        ∙ ap (λ bytes. count ++ bytes)
            (sym (table_bytes-early parts (collected-IsNear v 0 nprocs (omega arith))))
