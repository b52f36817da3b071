-- ===== src/ImageDatabase/Slots.antt =====
-- How the hash values are shared out among the processes of an image database.
use native.Mathlib.Nat.{div-add-mod, mod-lt, div-le_self}
use native.Mathlib.Decide.{dec_lt}
use activebsp.Base.{
  size_mul, size_add, size_sub, fault, length_error, leb, false, refl, ℕ, ◌+◌, ◌-◌, ◌*◌, ◌/◌, ◌%◌,
  ◌<◌, ◌≤◌, ◌≡◌, ap, arith, ◌==◌, Bool-cases, inl, inr, min, int_min, size_mul, to_int,
}
use activebsp.Distribution.BlockRange.Bounds.{mul_le}
use activebsp.ImageDatabase.{hash_size, block_of, nhash_of, max_lists, image_database}

-- The blocks of `p` processes reach the last hash value.
pub block_of_covers : (p : ℕ) → 0 < p → hash_size ≤ block_of p * p
unfolding block_of
block_of_covers p h =
    let whole : 12289 / p * p + 12289 % p ≡ 12289 = omega (arith, div-add-mod 12289 p) in
    let small = mod-lt 12289 h in
    elim (Bool-cases (hash_size % p == 0)) [
      | inl e ↦ rw e (ground (arith, e, whole))
      | inr e ↦
          let step : (12289 / p + 1) * p ≡ 12289 / p * p + p = omega arith in
          rw e (omega (arith, step, whole, small))
    ]

block_of_small : (p : ℕ) → block_of p ≤ hash_size + 1
unfolding block_of
block_of_small p = ground (arith, div-le_self 12289 p)

pub block_of_pos : (p : ℕ) → 0 < p → 0 < block_of p
block_of_pos p h = elim (dec_lt 0 (block_of p)) [
  | yes pos ↦ pos
  | no none_left ↦
      let zero_block : block_of p ≡ 0 = omega arith in
      absurd (omega (arith, block_of_covers p h, ap (λ (b : ℕ). b * p) zero_block))
]

-- No process starts behind the last hash value.
pub record IsRoomy (p : ℕ) : Type 0 where
  pub some_process : 0 < p
  pub few : p < int_min
  pub room : block_of p * (p - 1) ≤ hash_size

module _ (p : ℕ) (v : IsRoomy p) where
  pub start_le : (s : ℕ) → s < p → block_of p * s ≤ hash_size
  start_le s h =
      omega (arith, mul_le s (p - 1) (block_of p) (omega (arith, v.some_process)), v.room)

  -- No machine word wraps in the constructor.
  pub size_mul-start : (s : ℕ) → s < p → size_mul (block_of p) s ≡ block_of p * s
  size_mul-start s h = omega (arith, start_le s h)

  pub nhash_of_lem :
      (s : ℕ)
      → s < p
      → nhash_of (block_of p) (block_of p * s) ≡ min (block_of p) (hash_size - block_of p * s)
  unfolding nhash_of
  nhash_of_lem s h = ground (arith, start_le s h, block_of_small p)

  -- Every hash value has its place at exactly one process.
  pub slot_lem :
      (k : ℕ)
      → k < hash_size
      → (to_int (k / block_of p) ≡ k / block_of p)
        × (k / block_of p < p)
        × (block_of p * (k / block_of p) ≤ k)
        × (k - block_of p * (k / block_of p)
            < nhash_of (block_of p) (block_of p * (k / block_of p)))
  slot_lem k h =
      let b = block_of p in
      let whole : b * (k / b) + k % b ≡ k = omega (arith, div-add-mod k b) in
      let small = mod-lt k (block_of_pos p v.some_process) in
      let below : k / b < p = elim (dec_lt (k / b) p) [
        | yes lt ↦ lt
        | no ge ↦ absurd (
            omega
              (arith, mul_le p (k / b) b (omega arith), block_of_covers p v.some_process, whole))
      ] in
      (
        omega (arith, below, v.few),
        below,
        omega (arith, whole),
        omega (arith, nhash_of_lem (k / b) below, whole, small),
      )

  -- A hash value is in the part of the table of one process only.
  pub slot_unique :
      (k s : ℕ)
      → k < hash_size
      → s < p
      → block_of p * s ≤ k
      → k < block_of p * s + nhash_of (block_of p) (block_of p * s)
      → s ≡ k / block_of p
  slot_unique k s hk hs lo hi =
      let b = block_of p in
      let whole : b * (k / b) + k % b ≡ k = omega (arith, div-add-mod k b) in
      let small = mod-lt k (block_of_pos p v.some_process) in
      let size = nhash_of_lem s hs in
      elim (dec_lt s (k / b)) [
        | yes lt ↦ absurd (omega (arith, mul_le (s + 1) (k / b) b (omega arith), whole, size))
        | no ge ↦ elim (dec_lt (k / b) s) [
          | yes gt ↦ absurd (omega (arith, mul_le (k / b + 1) s b (omega arith), whole, small))
          | no le ↦ omega arith
        ]
      ]

-- The number of lists of a process that starts behind the last hash value wraps round, and no vector
-- has as many: the constructor throws, on every number of processes that leaves one there.
pub database_impossible :
    (s p : ℕ)
    → s < p
    → p < int_min
    → hash_size < block_of p * s
    → image_database s p ≡ fault length_error
unfolding image_database nhash_of
database_impossible s p h few behind =
    let below : block_of p * s ≤ (hash_size + 1) * s = grind (arith, block_of_small p) in
    let start : size_mul (block_of p) s ≡ block_of p * s = omega (arith, below, few) in
    let past : leb (size_add (block_of p * s) (block_of p)) hash_size ≡ false =
      ground (arith, below, few, behind, block_of_small p) in
    let huge : leb (size_sub hash_size (block_of p * s)) max_lists ≡ false =
      ground (arith, below, few, behind) in
    rw (start, past, huge) refl
