-- ===== src/Tests/Results.antt =====
-- The handlers for parts at concrete inputs.
use activebsp.Base.{
  ℕ, ◌≡◌, refl, some, List, [], ◌∷◌, ◌++◌, map, arith, ok, fault, deadlock, assign, empty_map,
  value_or,
}
use activebsp.Store.DataStore.{
  Bytes, DataStore, data_store, vector_store, get_part_data, store_part_vector,
}
use activebsp.Store.DataStore.Invariant.{
  IsValid, stores_vector, step, step-IsValid, data_store-IsValid,
}
use activebsp.Message.{ReqPart, StoreResultPartMessage}
use activebsp.Server.State.{send, distr_vector, Server, start}
use activebsp.Server.Results.{
  handle_get_result_parts, handle_store_result, handle_release_result_part,
  handle_store_result_part, handle_distribute_vector,
}
use activebsp.Server.Results.Answers.{
  available, served, handle_get_result_parts_lem, out_of_range_deadlocks,
}
use activebsp.Server.Results.Layout.{exact_blocks, key_after, handle_distribute_vector-blocks}
use activebsp.Server.Results.Delivery.{delivery, handle_store_result_lem}

-- A store with three bytes under key 9.
abbrev pub holding : DataStore
holding = record {
  result_vector_store = assign 9 (5 ∷ 6 ∷ 7 ∷ []) empty_map;
  result_msg_store = empty_map;
  dv_parts =
      assign 9 (record { key = 9; size = 3; location = vector_store; remaining_bytes = 0 })
        empty_map;
}

holding-IsValid : IsValid holding
unfolding data_store step store_part_vector
holding-IsValid =
    step-IsValid data_store (stores_vector 9 (5 ∷ 6 ∷ 7 ∷ [])) {d' = holding} data_store-IsValid tt
      refl

abbrev pub owner : Server
owner = record (start 1) { parts = holding }

-- Two bytes of the part that is there, and one of a part that is not.
abbrev wanted : List ReqPart
wanted =
    record { resid = 9; offset = 1; size = 2 } ∷ record { resid = 8; offset = 0; size = 1 } ∷ []

handle_get_result_parts_lem_example :
    handle_get_result_parts owner 4 5 wanted ≡ ok (served owner 4 5 wanted)
unfolding start available get_part_data
handle_get_result_parts_lem_example =
    handle_get_result_parts_lem owner 4 5 wanted holding-IsValid refl
      ((omega arith, omega arith), (tt, tt))

out_of_range_deadlocks_example :
    (s' : Server) × (handle_get_result_parts owner 4 5
        (wanted ++ (record { resid = 9; offset = 2; size = 2 } ∷ []))
      ≡ ok s')
    × ((src to : ℕ) (more : List ReqPart) → handle_get_result_parts s' src to more ≡ fault deadlock)
    × ((key : ℕ) (bytes : Bytes) → handle_store_result s' key bytes ≡ fault deadlock)
    × ((chunk : StoreResultPartMessage) → handle_store_result_part s' chunk ≡ fault deadlock)
    × ((key : ℕ) → handle_release_result_part s' key ≡ fault deadlock)
unfolding start available get_part_data
out_of_range_deadlocks_example =
    out_of_range_deadlocks owner 4 5 wanted holding-IsValid refl
      ((omega arith, omega arith), (tt, tt)) (record { resid = 9; offset = 2; size = 2 }) []
      (5 ∷ 6 ∷ 7 ∷ []) refl (omega arith) (omega arith)

-- Process 6 waits for two bytes of the part 8.
abbrev waiting : Server
waiting = record owner {
  pending_result_requests = assign 8 (record { offset = 1; size = 2; dst = 6 } ∷ []) empty_map;
}

handle_store_result_lem_example :
    (d : DataStore) × (handle_store_result waiting 8 (1 ∷ 2 ∷ 3 ∷ [])
      ≡ ok (record waiting {
        parts = d;
        sent =
            waiting.sent
            ++ map (delivery (1 ∷ 2 ∷ 3 ∷ [])) (value_or [] (waiting.pending_result_requests 8));
      }))
    × (get_part_data d 8 ≡ ok (some (1 ∷ 2 ∷ 3 ∷ [], 3)))
    × (d.result_vector_store ≡ waiting.parts.result_vector_store)
    × ((k : ℕ)
        → (k ≡ 8 → ⊥)
        → (d.dv_parts k ≡ waiting.parts.dv_parts k)
          × (d.result_msg_store k ≡ waiting.parts.result_msg_store k))
unfolding start
handle_store_result_lem_example =
    handle_store_result_lem waiting 8 (1 ∷ 2 ∷ 3 ∷ []) holding-IsValid refl refl (omega arith)
      (omega arith, tt)

abbrev laying_out : Server
laying_out = record (start 4) { pids = 4 ∷ 5 ∷ [] }

handle_distribute_vector-blocks_example :
    handle_distribute_vector laying_out 9 3 2
    ≡ ok (
        send
          (record laying_out {
            next_result_store_local_key =
                key_after laying_out.next_result_store_local_key laying_out.pids;
          })
          (distr_vector 9 (record {
            nelem = 2;
            parts = exact_blocks 3 2 2 laying_out.next_result_store_local_key 0 laying_out.pids;
          })))
unfolding start
handle_distribute_vector-blocks_example =
    handle_distribute_vector-blocks laying_out 9 3 2 (omega arith) (omega arith) (omega arith)
