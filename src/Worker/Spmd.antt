-- ===== src/Worker/Spmd.antt =====
-- The parallel functions of an actor: ActiveBSP/src/Actor.cpp, include/Actor.hpp, and the loop of the
-- other processes in src/worker/ActorWorker.cpp. The functions of a process work on its object. The
-- synchronisation that they do among themselves is the BSP library's, and no part of them here.
pub mod Table
pub mod Lockstep
use activebsp.Base.{
  ℕ, ◌==◌, Option, none, some, List, [], ◌∷◌, ◌++◌, length, get_elem?, Map, empty_map, assign,
  touch, value_or, to_int, int_add, int_sub, if◌then◌else◌, Result, ok, fault, out_of_bounds, ◌>>=◌,
}

-- `_spmd_functions` and `_spmd_function_ids`, with the addresses of the members as keys.
pub record Actor (A : Type 0) : Type 0 where
  pub spmd_functions : List (A → Result A)
  pub spmd_function_ids : Map ℕ

-- `kill_slaves`: the number sent.
abbrev pub kill_slaves : ℕ
kill_slaves = 0

module _ {A : Type 0} where
  unfoldable pub no_functions : Actor A
  no_functions = record { spmd_functions = []; spmd_function_ids = empty_map }

  -- `register_spmd`.
  unfoldable pub register_spmd : Actor A → ℕ → (A → Result A) → Actor A
  register_spmd a addr f = record {
    spmd_functions = a.spmd_functions ++ (f ∷ []);
    spmd_function_ids = assign addr (to_int (length a.spmd_functions)) a.spmd_function_ids;
  }

  -- `_spmd_functions[id]()`.
  unfoldable pub run_at : Actor A → ℕ → A → Result A
  run_at a id obj = elim (get_elem? a.spmd_functions id) [
    | none ↦ fault out_of_bounds
    | some f ↦ f obj
  ]

  -- `run_function_id`: what it sends to the other processes, before it runs the function itself.
  unfoldable pub run_function_id : Actor A → ℕ → A → ℕ × Result A
  unfolding run_at
  run_function_id a id obj = (int_add id 1, run_at a id obj)

  -- `bsp_run`. `operator[]` gives the id 0 to an address that it does not know, and keeps it.
  unfoldable pub bsp_run : Actor A → ℕ → A → Actor A × (ℕ × Result A)
  unfolding run_function_id
  bsp_run a addr obj =
      let id = value_or 0 (a.spmd_function_ids addr) in
      let known = record a { spmd_function_ids = touch 0 addr a.spmd_function_ids } in
      (known, run_function_id known id obj)

  -- `call_spmd`: without any function it is reported, and nothing is done.
  unfoldable pub call_spmd : Actor A → ℕ → A → Result A
  unfolding run_at
  call_spmd a id obj = if length a.spmd_functions == 0 then ok obj else run_at a id obj

  -- `slave_loop`, on the numbers that `receiveSPMDFunctionId` gives: the object with the numbers that
  -- are left, or none if it waits for more.
  unfoldable pub slave_loop : Actor A → A → List ℕ → Result (Option (A × List ℕ))
  unfolding call_spmd
  slave_loop a obj [] = ok none
  slave_loop a obj (function_id ∷ ids) =
      if function_id == 0
      then ok (some (obj, ids))
      else (call_spmd a (int_sub function_id 1) obj >>= λ obj'. slave_loop a obj' ids)

  -- The functions that the master runs one after another, by address, and the numbers that it sends.
  unfoldable pub master_runs : Actor A → A → List ℕ → Result (A × List ℕ)
  unfolding bsp_run
  master_runs a obj [] = ok (obj, [])
  master_runs a obj (addr ∷ addrs) =
      let (a', (sent, result)) = bsp_run a addr obj in
      result >>= λ obj'. master_runs a' obj' addrs >>= λ done. ok (done.0, sent ∷ done.1)
