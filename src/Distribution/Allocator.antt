-- ===== src/Distribution/Allocator.antt =====
-- ActiveBSP/src/procassign/contiguous_assign.cpp: processes handed out in contiguous runs.
pub mod Runs
use activebsp.Base.{
  ℕ, zero, suc, ◌+◌, ◌≡◌, List, [], ◌∷◌, ltb, leb, if◌then◌else◌, int_lt, int_add, int_sub, int_min,
  Result, ok, fault, length_error,
}

-- Entries `i`, `i + 1`, … of the vector that `allocate_contiguous_procs` fills.
procs_from : ℕ → ℕ → ℕ → List ℕ
procs_from offset i zero = []
procs_from offset i (suc rounds) = int_add offset i ∷ procs_from offset (i + 1) rounds

-- A negative count makes `std::vector` throw.
unfoldable pub allocate_contiguous_procs : ℕ → ℕ → Result (List ℕ)
unfolding procs_from
allocate_contiguous_procs offset p =
    if ltb p int_min then ok (procs_from offset 0 p) else fault length_error

-- `ContiguousProcessAllocator`.
pub record Allocator : Type 0 where
  pub offset : ℕ
  pub cur_offset : ℕ
  pub p : ℕ
  pub cur_p : ℕ

unfoldable pub allocator : ℕ → ℕ → Allocator
allocator offset p = record { offset = offset; cur_offset = offset; p = p; cur_p = p }

-- `allocate`: with too few processes left, no process and no change.
unfoldable pub allocate : Allocator → ℕ → Result (List ℕ × Allocator)
allocate a p =
    if int_lt a.cur_p p then ok ([], a) else elim (allocate_contiguous_procs a.cur_offset p) [
      | ok pids ↦
          ok (pids, record a { cur_p = int_sub a.cur_p p; cur_offset = int_add a.cur_offset p })
      | fault e ↦ fault e
    ]
