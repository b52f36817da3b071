-- ===== src/Tests/End.antt =====
-- The end of an actor at concrete inputs.
use activebsp.Base.{
  ℕ, ◌≡◌, refl, sym, ap, ◌++◌, true, false, some, List, [], ◌∷◌, All, arith, ok, ok-injective,
  ◌>>=◌,
}
use activebsp.Server.State.{Server, Request, start, send, response_code}
use activebsp.Server.Route.{handle_stop_actor}
use activebsp.Worker.{call_function, post_message}
use activebsp.Worker.Order.{call_all}
use activebsp.Worker.Spmd.{
  no_functions, register_spmd, run_at, bsp_run, master_runs, kill_slaves, slave_loop,
  run_function_id,
}
use activebsp.Worker.Spmd.Lockstep.{run_all, IsRegistered, numbers}
use activebsp.Worker.End.{Functions, destroy_actor, destroy_master_object, handler}
use activebsp.Worker.End.Together.{
  stop_request, released, IsParallel, head_ending, other_ending, actor_ends,
}
use activebsp.Tests.Actor.{two_functions, two_functions-IsTable, adds_one}
use activebsp.Tests.Worker.{idle, two_calls}

-- A function that runs the one at the address 200 on all processes and returns the new object.
abbrev counts : Functions ℕ
counts name = some (λ id args now. master_runs two_functions now.obj (200 ∷ []) >>= λ done.
    ok (done.0 ∷ [], record { obj = done.0; numbers = now.numbers ++ done.1 }))

counts-IsParallel : IsParallel two_functions counts
unfolding call_function master_runs bsp_run run_function_id run_at no_functions register_spmd
counts-IsParallel msg now later bytes h =
    (200 ∷ [], ((1, adds_one, refl, refl), tt), sym (ap (λ r. r.1.numbers) (ok-injective h)))

-- A slave that gets the number of the function twice and then the stop number.
slave_ends :
    handler two_functions counts false 2 5 [] (2 ∷ 2 ∷ 0 ∷ [])
    ≡ ok (some (other_ending two_functions counts 1 2))
unfolding handler slave_loop destroy_actor destroy_master_object no_functions register_spmd
slave_ends = refl

actor_ends_example :
    (addrs : List ℕ) × (s' : Server) × (queue : List Request) × (All
      (IsRegistered two_functions)
      addrs)
    × (call_all idle two_calls ≡ ok s')
    × (s'.worker ≡ some queue)
    × (handler two_functions counts true 1 3 (post_message queue stop_request) []
        ≡ ok (some (head_ending two_functions counts 1 0 ((4 ∷ []) ∷ (5 ∷ []) ∷ []) addrs)))
    × (handler two_functions counts false 2 5 [] (numbers two_functions addrs ++ (kill_slaves ∷ []))
        ≡ (run_all two_functions addrs 5 >>= λ done.
            ok (some (other_ending two_functions counts 1 2))))
    × (handle_stop_actor s' 7 true ≡ ok (send (released s') (response_code 7 0)))
    × (handle_stop_actor (record idle { pid = 2 }) 2 false
        ≡ ok (released (record idle { pid = 2 })))
unfolding start call_function master_runs bsp_run run_function_id run_at no_functions register_spmd
actor_ends_example =
    actor_ends two_functions counts 1 idle (record idle { pid = 2 }) 7 3 5 two_calls
      two_functions-IsTable counts-IsParallel refl (omega arith) (omega arith, (omega arith, tt))
      refl refl
