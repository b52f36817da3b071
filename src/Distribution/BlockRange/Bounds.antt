-- ===== src/Distribution/BlockRange/Bounds.antt =====
-- The bounds of the blocks of `div_range` (block_distribution.cpp), exact and in machine arithmetic.
use native.Mathlib.Nat.{div-add-mod, div-le_self}
use native.Mathlib.Decide.{dec_lt}
use activebsp.Base.{
  ℕ, ◌+◌, ◌-◌, ◌*◌, ◌/◌, ◌%◌, ◌^◌, ◌≤◌, ◌<◌, ◌≡◌, refl, ap, min, arith, if◌then◌else◌, int_min,
  int_lt, int_add, int_sub, int_mod, size_mod, int_mul, false, to_int, to_size, true, false, ltb,
}
use activebsp.Distribution.BlockRange.{div_range, block_begin, long_block, short_block}

pub mul_le : (a b c : ℕ) → a ≤ b → c * a ≤ c * b
mul_le a b c h = grind arith

split_at : (s p b : ℕ) → s ≤ p → (p - s) * b + b * s ≡ b * p
split_at s p b h = let e : p ≡ p - s + s = omega arith in omega (arith, ap (λ (k : ℕ). b * k) e)

long_block_lem :
    (n s p b r : ℕ)
    → n ≡ b * p + r
    → s < r
    → r < p
    → n < int_min
    → long_block s b ≡ (s * b + s, s * b + b + (s + 1))
long_block_lem n s p b r e hs hr hn =
    let two : b * 2 ≤ b * p = mul_le 2 p b (omega arith) in
    let below : b * s ≤ b * p = mul_le s p b (omega arith) in
    let small : int_add b 1 ≡ b + 1 = omega arith in rw small (ground (arith, two, below))

short_block_lem :
    (n s p b r : ℕ)
    → n ≡ b * p + r
    → r ≤ s
    → s < p
    → p < int_min
    → n < int_min
    → short_block n s p b ≡ (s * b + r, s * b + b + r)
short_block_lem n s p b r e hs hr hp hn =
    let one : b * 1 ≤ b * p = mul_le 1 p b (omega arith) in
    let below : b * s ≤ b * p = mul_le s p b (omega arith) in
    let next : b * (s + 1) ≤ b * p = mul_le (s + 1) p b (omega arith) in
    let small : int_sub p s ≡ p - s = omega arith in
    let split : (p - s) * b + b * s ≡ b * p = split_at s p b (omega arith) in
    rw small (ground (arith, one, below, next, split))

blocks_lem :
    (n s p b r : ℕ)
    → n ≡ b * p + r
    → s < p
    → r < p
    → p < int_min
    → n < int_min
    → (if int_lt s r then long_block s b else short_block n s p b)
      ≡ (s * b + min s r, (s + 1) * b + min (s + 1) r)
blocks_lem n s p b r e hs hr hp hn = elim (dec_lt s r) [
  | yes h ↦
      let t : int_lt s r ≡ true = ground arith in
      rw (t, long_block_lem n s p b r e h hr hn) (ground arith)
  | no h ↦
      let t : int_lt s r ≡ false = ground arith in
      rw (t, short_block_lem n s p b r e (omega arith) hs hp hn) (ground arith)
]

-- The machine arithmetic of `div_range` computes the exact block: block `s` of `p` runs from
-- `block_begin n p s` to `block_begin n p (s + 1)`, if there is such a block, there are fewer than
-- 2 ^ 31 of them and the vector has fewer than 2 ^ 31 bytes.
pub div_range-block_begin :
    (n s p : ℕ)
    → s < p
    → p < int_min
    → n < int_min
    → div_range n s p ≡ (block_begin n p s, block_begin n p (s + 1))
unfolding div_range
div_range-block_begin n s p hs hp hn =
    let e : n ≡ n / p * p + n % p = omega (arith, div-add-mod n p) in
    let width : to_size p ≡ p = ground arith in
    let block : to_int (n / p) ≡ n / p = omega arith in
    let rem : to_int (n % p) ≡ n % p = omega arith in
    rw (width, block, rem) (blocks_lem n s p (n / p) (n % p) e hs (omega arith) hp hn)

-- Where a vector of fewer than 2 ^ 31 bytes is cut into two or more blocks, fewer than 2 ^ 31 of
-- them, the blocks tile it: the first begins at 0, each but the last ends where the next begins, and
-- the last ends at `n`.
pub blocks_tile :
    (n s p : ℕ)
    → s + 1 < p
    → p < int_min
    → n < int_min
    → ((div_range n 0 p).0 ≡ 0)
      × ((div_range n s p).1 ≡ (div_range n (s + 1) p).0)
      × ((div_range n (p - 1) p).1 ≡ n)
blocks_tile n s p hs hp hn =
    let whole : p * (n / p) + n % p ≡ n = omega (arith, div-add-mod n p) in
    let last : p - 1 + 1 ≡ p = omega arith in
    rw
      (
        div_range-block_begin n 0 p (omega arith) hp hn,
        div_range-block_begin n s p (omega arith) hp hn,
        div_range-block_begin n (s + 1) p hs hp hn,
        div_range-block_begin n (p - 1) p (omega arith) hp hn,
        last,
      )
      (omega arith, refl, omega arith)

-- Where there are fewer than 2 ^ 31 blocks and bytes, the blocks are balanced: each has `n / p`
-- bytes, or one more if it is among the first `n % p`.
pub blocks_balanced :
    (n s p : ℕ)
    → s < p
    → p < int_min
    → n < int_min
    → let (beg, end) = div_range n s p in end ≡ beg + n / p + (if ltb s (n % p) then 1 else 0)
blocks_balanced n s p hs hp hn =
    let step : (s + 1) * (n / p) ≡ s * (n / p) + n / p = omega arith in
    rw (div_range-block_begin n s p hs hp hn) (ground (arith, step))

-- Of a vector below 4 GiB, on fewer than 2 ^ 31 processes, a block that is not one of the longer
-- ones and that has 2 GiB or more from its beginning to the end of the vector begins 4 GiB too far.
-- Where the processes divide the vector, and it has 2 GiB or more, this is so for the first block.
pub div_range_misplaced :
    (n s p : ℕ)
    → s < p
    → p < int_min
    → n < int_mod
    → n % p ≤ s
    → int_min ≤ (p - s) * (n / p)
    → (div_range n s p).0 ≡ block_begin n p s + 2 ^ 32
unfolding div_range
div_range_misplaced n s p hs hp hn short lo =
    let whole : n ≡ n / p * p + n % p = omega (arith, div-add-mod n p) in
    let split : (p - s) * (n / p) + n / p * s ≡ n / p * p = split_at s p (n / p) (omega arith) in
    let width : to_size p ≡ p = ground arith in
    let block : to_int (n / p) ≡ n / p = omega (arith, div-le_self n p) in
    let rem : to_int (n % p) ≡ n % p = omega arith in
    let last : int_lt s (n % p) ≡ false = ground arith in
    let left : int_sub p s ≡ p - s = omega arith in
    let far : to_size (int_mul (p - s) (n / p)) ≡ (p - s) * (n / p) + (size_mod - int_mod) =
      ground (arith, lo, whole, split) in
    rw (width, block, rem, last, left, far) (omega (arith, whole, split, short, lo, hn))

-- The exact bounds grow from 0 to `n`.
pub block_begin_le :
    (n p s : ℕ)
    → s < p
    → (block_begin n p s ≤ block_begin n p (s + 1)) × (block_begin n p (s + 1) ≤ n)
block_begin_le n p s h =
    let whole = div-add-mod n p in
    let below : (n / p) * (s + 1) ≤ (n / p) * p = mul_le (s + 1) p (n / p) (omega arith) in
    (omega arith, omega (arith, whole, below))

pub block_begin_ends : (n p : ℕ) → 0 < p → (block_begin n p 0 ≡ 0) × (block_begin n p p ≡ n)
block_begin_ends n p h = let whole = div-add-mod n p in (omega arith, omega (arith, whole))
