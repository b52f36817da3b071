-- ===== src/Tests/Distribution.antt =====
-- Distributions and the process allocator at concrete inputs.
use activebsp.Base.{◌*◌, ◌+◌, ℕ, ◌≡◌, refl, ◌^◌, ◌+◌, [], ◌∷◌, arith, ok}
use activebsp.Distribution.BlockRange.{div_range, block_begin}
use activebsp.Distribution.BlockRange.Bounds.{
  div_range-block_begin, blocks_tile, blocks_balanced, div_range_misplaced,
}
use activebsp.Distribution.Allocator.{Allocator}
use activebsp.Distribution.Allocator.Runs.{IsValid, range, allocate_all, allocate_all_contiguous}

ten_over_three :
    (div_range 10 0 3 ≡ (0, 4)) × (div_range 10 1 3 ≡ (4, 7)) × (div_range 10 2 3 ≡ (7, 10))
unfolding div_range
ten_over_three = (refl, refl, refl)

div_range-block_begin_example : div_range 10 1 3 ≡ (block_begin 10 3 1, block_begin 10 3 2)
div_range-block_begin_example =
    div_range-block_begin 10 1 3 (omega arith) (omega arith) (omega arith)

blocks_tile_example :
    ((div_range 10 0 3).0 ≡ 0)
    × ((div_range 10 1 3).1 ≡ (div_range 10 (1 + 1) 3).0)
    × ((div_range 10 2 3).1 ≡ 10)
blocks_tile_example = blocks_tile 10 1 3 (omega arith) (omega arith) (omega arith)

blocks_balanced_example : (div_range 10 1 3).1 ≡ (div_range 10 1 3).0 + 3 + 0
blocks_balanced_example = blocks_balanced 10 1 3 (omega arith) (omega arith) (omega arith)

-- The first of three blocks of a vector of 3 * 2 ^ 30 bytes.
div_range_misplaced_example : (div_range (3 * 2 ^ 30) 0 3).0 ≡ block_begin (3 * 2 ^ 30) 3 0 + 2 ^ 32
div_range_misplaced_example =
    div_range_misplaced (3 * 2 ^ 30) 0 3 (omega arith) (omega arith) (omega arith) (omega arith)
      (omega arith)

abbrev eight_processes : Allocator
eight_processes = record { offset = 1; cur_offset = 1; p = 8; cur_p = 8 }

eight_processes-IsValid : IsValid eight_processes
eight_processes-IsValid = omega arith

allocate_all_contiguous_example :
    (k : ℕ) × (a : Allocator) × (allocate_all eight_processes (3 ∷ 9 ∷ 4 ∷ []) ≡ ok (range 1 k, a))
    × IsValid a
    × (a.cur_offset ≡ 1 + k)
    × (a.cur_p + k ≡ 8)
allocate_all_contiguous_example =
    allocate_all_contiguous eight_processes (3 ∷ 9 ∷ 4 ∷ []) eight_processes-IsValid (omega arith)
