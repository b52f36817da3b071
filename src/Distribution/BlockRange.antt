-- ===== src/Distribution/BlockRange.antt =====
-- ActiveBSP/src/distributions/block_distribution.cpp: the block of process `s` out of `p`.
pub mod Bounds
use activebsp.Base.{
  ℕ, ◌+◌, ◌*◌, ◌/◌, ◌%◌, min, if◌then◌else◌, to_int, to_size, int_add, int_sub, int_mul, int_lt,
  size_add, size_sub,
}

-- The first branch: a block that takes one of the `n % p` left over.
abbrev pub long_block : ℕ → ℕ → ℕ × ℕ
long_block s block =
    let beg = to_size (int_mul (int_add block 1) s) in
    (beg, size_add (to_size (int_add block 1)) beg)

-- The second branch: `n - (p - s) * block`.
abbrev pub short_block : ℕ → ℕ → ℕ → ℕ → ℕ × ℕ
short_block n s p block =
    let beg = size_sub n (to_size (int_mul (int_sub p s) block)) in
    (beg, size_add (to_size block) beg)

-- `div_range`: the two results are `*beg` and `*end`. The quotient and the remainder are taken of
-- `unsigned long`s and then narrowed to `int`, in which the products are formed.
unfoldable pub div_range : ℕ → ℕ → ℕ → ℕ × ℕ
div_range n s p =
    let block = to_int (n / to_size p) in
    let rem = to_int (n % to_size p) in
    if int_lt s rem then long_block s block else short_block n s p block

-- Where block `s` begins when the first `n % p` blocks have one element more than the others.
abbrev pub block_begin : ℕ → ℕ → ℕ → ℕ
block_begin n p s = s * (n / p) + min s (n % p)
