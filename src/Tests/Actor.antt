-- ===== src/Tests/Actor.antt =====
-- The parallel functions and the results of an actor at concrete inputs.
use activebsp.Base.{
  ℕ, ◌+◌, ◌*◌, ◌^◌, ◌≤◌, length, ◌≡◌, refl, ◌==◌, if◌then◌else◌, some, List, [], ◌∷◌, ◌++◌, slice,
  arith, Result, ok, ◌>>=◌,
}
use activebsp.Distribution.VectorDistribution.{VectorDistribution, vector_distribution}
use activebsp.Store.DataStore.{Bytes}
use activebsp.Worker.Spmd.{Actor, no_functions, register_spmd, master_runs, slave_loop, kill_slaves}
use activebsp.Worker.Spmd.Table.{IsTable, function_of, register_spmd_lem}
use activebsp.Worker.Spmd.Lockstep.{run_all, lockstep}
use activebsp.Communicator.{dv_get_part}
use activebsp.Communicator.Sharing.{delivered}
use activebsp.Worker.Results.Reading.{
  registered, begin_of, after, stores, results_gathered_then_read,
}
use activebsp.Worker.Results.{Results, register_single_part_result, dv_bytes, gather_distr_parts}
use activebsp.Worker.Results.Gather.{collected, gather_distr_parts_lem}

abbrev doubles : ℕ → Result ℕ
doubles n = ok (2 * n)

abbrev pub adds_one : ℕ → Result ℕ
adds_one n = ok (n + 1)

no_functions-IsTable : IsTable {A = ℕ} no_functions
unfolding no_functions
no_functions-IsTable = record { known = λ addr id h. absurd cc; few = omega arith }

-- The functions at the addresses 100 and 200.
abbrev one_function : Actor ℕ
one_function = register_spmd no_functions 100 doubles

abbrev pub two_functions : Actor ℕ
two_functions = register_spmd one_function 200 adds_one

one_function-IsTable : IsTable one_function
unfolding no_functions
one_function-IsTable =
    (register_spmd_lem no_functions 100 doubles no_functions-IsTable (omega arith)).0

pub two_functions-IsTable : IsTable two_functions
unfolding no_functions register_spmd
two_functions-IsTable =
    (register_spmd_lem one_function 200 adds_one one_function-IsTable (omega arith)).0

register_spmd_lem_example :
    IsTable two_functions
    × ((other : ℕ)
        → function_of two_functions other
          ≡ (if other == 200 then some adds_one else function_of one_function other))
unfolding no_functions register_spmd
register_spmd_lem_example =
    register_spmd_lem one_function 200 adds_one one_function-IsTable (omega arith)

lockstep_example :
    (sent : List ℕ) × (master_runs two_functions 3 (200 ∷ 100 ∷ 200 ∷ [])
      ≡ (run_all two_functions (200 ∷ 100 ∷ 200 ∷ []) 3 >>= λ done. ok (done, sent)))
    × (slave_loop two_functions 5 (sent ++ (kill_slaves ∷ 7 ∷ []))
        ≡ (run_all two_functions (200 ∷ 100 ∷ 200 ∷ []) 5 >>= λ done. ok (some (done, 7 ∷ []))))
unfolding no_functions register_spmd
lockstep_example =
    lockstep two_functions (200 ∷ 100 ∷ 200 ∷ []) 3 5 (7 ∷ []) two_functions-IsTable
      ((1, adds_one, refl, refl), ((0, doubles, refl, refl), ((1, adds_one, refl, refl), tt)))

-- Each process has one part of ten bytes.
abbrev tens : ℕ → VectorDistribution
tens pid = record {
  nelem = 1;
  parts = record { pid = pid; resid = 4; size = 10; offset = 10 * pid } ∷ [];
}

abbrev gets : ℕ → ℕ → ℕ → Bytes
gets pid offset n = slice offset n (dv_bytes (tens pid))

gather_distr_parts_lem_example :
    gather_distr_parts gets 1 3 ≡ dv_bytes (record { nelem = 1 * 3; parts = collected tens 0 3 })
gather_distr_parts_lem_example =
    gather_distr_parts_lem tens gets 1 3 (λ pid offset n. refl)
      (record { count = λ s h. refl; near = λ s h. (omega arith, tt) })

-- A part at 4 GiB is gathered with the offset 0.
abbrev far : VectorDistribution
far = record { nelem = 1; parts = record { pid = 0; resid = 4; size = 10; offset = 2 ^ 32 } ∷ [] }

gather_loses_high_half :
    gather_distr_parts (λ pid offset n. slice offset n (dv_bytes far)) 1 1
    ≡ dv_bytes
        (record { nelem = 1; parts = record { pid = 0; resid = 4; size = 10; offset = 0 } ∷ [] })
unfolding gather_distr_parts vector_distribution
gather_loses_high_half = refl

-- Processes 2, 3 and 4 of the world compute two bytes each.
abbrev before : ℕ → Results
before s = record {
  pid = 2 + s;
  next_key = 9;
  cur_vector_distribution = record { nelem = 0; parts = [] };
  sent = [];
}

abbrev pair_of : ℕ → Bytes
pair_of s = s ∷ (s + 100) ∷ []

abbrev gets_results : ℕ → ℕ → ℕ → Bytes
gets_results pid offset size = slice offset size (dv_bytes (registered before pair_of pid))

results_gathered_then_read_example :
    (dv : VectorDistribution) × ((s : ℕ)
      → register_single_part_result (before s) (pair_of s) (begin_of before pair_of s)
        ≡ ok (after before pair_of s))
    × (gather_distr_parts gets_results 1 3 ≡ dv_bytes dv)
    × ((pid offset : ℕ) (out_buf : Bytes)
        → offset + length out_buf ≤ 6
        → dv_get_part (delivered (stores before pair_of 0 3)) pid dv offset out_buf
          ≡ ok (slice offset (length out_buf) (0 ∷ 100 ∷ 1 ∷ 101 ∷ 2 ∷ 102 ∷ [])))
results_gathered_then_read_example =
    results_gathered_then_read before pair_of 2 (λ s. refl) gets_results 3 (λ pid offset size. refl)
      (omega arith)
