-- ===== src/Tests/Communicator.antt =====
-- The communicator at concrete inputs.
use activebsp.Base.{
  ℕ, zero, suc, ◌≡◌, refl, ◌<◌, ◌≤◌, ◌++◌, ◌+◌, inl, inr, [], ◌∷◌, arith, Any, slice, length, ok,
  ◌==◌, if◌then◌else◌,
}
use activebsp.Store.DataStore.{Bytes}
use activebsp.Distribution.VectorDistribution.{VectorDistribution, all_parts}
use activebsp.Communicator.{dv_get_part, send_blocks}
use activebsp.Communicator.Sharing.{delivered, distribute_then_read}
use activebsp.Server.State.{Server, start, distr_vector}
use activebsp.Server.Results.{handle_distribute_vector}
use activebsp.Communicator.Answers.{HasByte}
use activebsp.Communicator.Reads.{dv_get_part_lem}

-- Six bytes in three parts, which stand out of order on two processes.
abbrev letters : Bytes
letters = 1 ∷ 2 ∷ 3 ∷ 4 ∷ 5 ∷ 6 ∷ []

abbrev three_parts : VectorDistribution
three_parts = record {
  nelem = 3;
  parts =
      record { pid = 1; resid = 7; size = 2; offset = 4 }
      ∷ record { pid = 0; resid = 7; size = 3; offset = 0 }
      ∷ record { pid = 1; resid = 8; size = 1; offset = 3 }
      ∷ [];
}

abbrev two_processes : ℕ → ℕ → Bytes
two_processes pid resid =
    if pid == 0
    then slice 0 3 letters
    else if resid == 7
    then slice 4 2 letters
    else slice 3 1 letters

middle_stands : (i : ℕ) → i < 3 → Any (HasByte two_processes letters (2 + i)) three_parts.parts
middle_stands zero h = inr (inl (omega arith, omega arith))
middle_stands (suc zero) h = inr (inr (inl (omega arith, omega arith)))
middle_stands (suc (suc i)) h = inl (omega arith, omega arith)

dv_get_part_lem_example :
    dv_get_part two_processes 0 three_parts 2 (0 ∷ 0 ∷ 0 ∷ []) ≡ ok (3 ∷ 4 ∷ 5 ∷ [])
dv_get_part_lem_example =
    dv_get_part_lem two_processes letters 0 2 three_parts (0 ∷ 0 ∷ 0 ∷ []) (omega arith)
      (omega arith) ((omega arith, refl), ((omega arith, refl), ((omega arith, refl), tt)))
      middle_stands

-- Three elements of two bytes over two processes.
abbrev head : Server
head = record (start 4) { pids = 4 ∷ 5 ∷ [] }

distribute_then_read_example :
    (dv : VectorDistribution) × (s' : Server) × (handle_distribute_vector head 9 3 2 ≡ ok s')
    × (s'.sent ≡ head.sent ++ (distr_vector 9 dv ∷ []))
    × ((pid offset : ℕ) (out_buf : Bytes)
        → offset + length out_buf ≤ 6
        → dv_get_part (delivered (send_blocks letters (all_parts dv))) pid dv offset out_buf
          ≡ ok (slice offset (length out_buf) letters))
unfolding start
distribute_then_read_example =
    distribute_then_read head 9 3 2 letters (omega arith) (omega arith) (omega arith) refl
      (omega arith) (omega arith) (omega arith)
