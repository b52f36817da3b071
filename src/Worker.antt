-- ===== src/Worker.antt =====
-- ActiveBSP/src/worker/ActorWorker.cpp, shmem/SharedMemoryRequestQueue.cpp and
-- future/LazyResultPublisher.cpp: the worker's thread of the actor's first process, which serves the
-- calls that the management thread queues. The mutex of the queue makes each operation one step.
pub mod Order
pub mod Spmd
pub mod Results
pub mod Broadcast
pub mod End
use activebsp.Base.{
  ℕ, ◌==◌, Bool, true, false, Option, none, some, List, [], ◌∷◌, ◌++◌, length, to_int, minus_one,
  if◌then◌else◌, Result, ok, fault, null_pointer, ◌>>=◌,
}
use activebsp.Store.DataStore.{Bytes}
use activebsp.Message.{CallActorMessage, register_future}
use activebsp.Server.State.{Request, Sent, actor_message}

-- `postMessage`.
unfoldable pub post_message : List Request → Request → List Request
post_message messages request = messages ++ (request ∷ [])

-- `getNextMessage`: on an empty queue the thread waits.
unfoldable pub get_next_message : List Request → Option (Request × List Request)
get_next_message [] = none
get_next_message (request ∷ messages) = some (request, messages)

-- `isEmpty`.
unfoldable pub is_empty : List Request → Bool
is_empty [] = true
is_empty (request ∷ messages) = false

-- `getNPendingRequests`.
unfoldable pub get_n_pending_requests : List Request → ℕ
get_n_pending_requests messages = to_int (length messages)

-- The bytes of "error".
abbrev pub error_serial : Bytes
error_serial = 101 ∷ 114 ∷ 114 ∷ 111 ∷ 114 ∷ []

-- `_run` and the object, with what the publisher has sent, oldest first.
pub record Worker (A : Type 0) : Type 0 where
  pub run : Bool
  pub obj : A
  pub sent : List Sent

-- `_functions`, the functions of the actor by name: they take the identifier of the request and the
-- serialized arguments, and work on the object. One that reads past its arguments is a fault. `pid` is the process's own.
module _ {A : Type 0} (functions : Bytes → Option (ℕ → Bytes → A → Result (Bytes × A))) where
  -- The call of a function, with the answer to a name that is not there.
  unfoldable pub call_function : CallActorMessage → A → Result (Bytes × A)
  call_function msg obj = elim (functions msg.function_name) [
    | none ↦ ok (error_serial, obj)
    | some f ↦ f msg.future_key msg.args obj
  ]

  module _ (pid : ℕ) where
    -- `reportResult`: the result is registered as a future with the process's own server.
    unfoldable pub report_result : Worker A → Request → Bytes → Worker A
    report_result w req serial = record w {
      sent = w.sent ++ (actor_message pid (register_future req.key serial) ∷ []);
    }

    -- One round of `master_loop` for a request that is not the exit flag.
    unfoldable pub serve_request : Worker A → Request → Result (Worker A)
    unfolding call_function report_result
    serve_request w req = elim req.call [
      | none ↦ fault null_pointer
      | some msg ↦ call_function msg w.obj >>= λ done.
          ok (report_result (record w { obj = done.1 }) req done.0)
    ]

    -- `master_loop`: the worker with the requests that it leaves in the queue. With `_run` still set
    -- it waits for more.
    unfoldable pub master_loop : Worker A → List Request → Result (Worker A × List Request)
    unfolding serve_request
    master_loop w [] = ok (w, [])
    master_loop w (req ∷ messages) =
        if req.source == minus_one
        then ok (record w { run = false }, messages)
        else serve_request w req >>= λ w'. master_loop w' messages
