-- ===== src/Tests/Worker.antt =====
-- The worker at concrete inputs.
use activebsp.Base.{
  ℕ, ◌≡◌, refl, ◌+◌, ◌++◌, Option, some, none, List, [], ◌∷◌, arith, minus_one, ok, true, Result,
  ◌>>=◌,
}
use activebsp.Store.DataStore.{Bytes}
use activebsp.Server.State.{Server, Request, start}
use activebsp.Worker.{Worker, call_function, master_loop, post_message}
use activebsp.Worker.Order.{Call, call_all, keys_sent, run_calls, calls_served_in_order, ended}

-- The bytes of "count".
abbrev count_name : Bytes
count_name = 99 ∷ 111 ∷ 117 ∷ 110 ∷ 116 ∷ []

-- One function, which puts the count of the calls before the arguments.
abbrev counting : Bytes → Option (ℕ → Bytes → ℕ → Result (Bytes × ℕ))
counting name = some (λ id args count. ok (count ∷ args, count + 1))

abbrev pub two_calls : List Call
two_calls =
    (3, record { function_name = count_name; args = 8 ∷ []; future_key = 0 })
    ∷ (5, record { function_name = count_name; args = 9 ∷ []; future_key = 0 })
    ∷ []

abbrev pub idle : Server
idle = record (start 1) { worker = some [] }

abbrev pub fresh : Worker ℕ
fresh = record { run = true; obj = 0; sent = [] }

calls_served_in_order_example :
    (s' : Server) × (queue : List Request) × (call_all idle two_calls ≡ ok s')
    × (s'.sent ≡ [] ++ keys_sent 0 two_calls)
    × (s'.worker ≡ some queue)
    × (master_loop counting 1 fresh
          (post_message queue (record { source = minus_one; key = 0; call = none }))
        ≡ (run_calls counting 0 two_calls >>= ended counting 1 fresh 0 []))
unfolding start
calls_served_in_order_example =
    calls_served_in_order counting 1 idle fresh two_calls refl (omega arith)
      (omega arith, (omega arith, tt))

-- The second call sees the object as the first one left it.
two_results : run_calls counting 0 two_calls ≡ ok ((0 ∷ 8 ∷ []) ∷ (1 ∷ 9 ∷ []) ∷ [], 2)
unfolding call_function
two_results = refl
