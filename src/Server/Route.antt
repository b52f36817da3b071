-- ===== src/Server/Route.antt =====
-- The rest of ActorServer.cpp: the handlers that start, call and stop the actor's worker, the
-- dispatch on the kind of a message, and the loop of the management thread.
use activebsp.Base.{
  ℕ, ◌==◌, Bool, false, Option, none, some, List, [], ◌∷◌, ◌++◌, minus_one, if◌then◌else◌, Result,
  ok, fault, ◌>>=◌, null_pointer, out_of_bounds,
}
use activebsp.Distribution.VectorDistribution.{VectorDistribution}
use activebsp.Store.Futures.{take_key}
use activebsp.Message.{
  Message, CallActorMessage, stop_actor_process, create_actor, stop_actor, call_actor,
  register_future as registers_future, get_future_data, release_future, store_result,
  store_result_part, release_result_part, get_result_parts, distribute_vector, prefetch, fetch,
}
use activebsp.Server.State.{Server, Request, response_code, send}
use activebsp.Server.Results.{
  handle_get_result_parts, handle_store_result, handle_release_result_part,
  handle_store_result_part, handle_distribute_vector,
}
use activebsp.Server.Fetch.{DvCodec, handle_fetch}
use activebsp.Server.Futures.{register_future, handle_get_future_data, handle_release_future}
use activebsp.Server.Prefetch.{handle_prefetch}

-- `handleCreateActorMessage`: `startActor` gives the worker's thread an empty queue and returns 0.
-- The thread itself is a caller of `set_intra_actor_comm`.
unfoldable pub handle_create_actor : Server → ℕ → List ℕ → Result Server
handle_create_actor s src [] = fault out_of_bounds
handle_create_actor s src (head ∷ others) =
    let s1 = record s { pids = head ∷ others; worker = some [] } in
    ok (if s.pid == head then send s1 (response_code src 0) else s1)

-- `callActor` of the worker's proxy: the request goes to the end of the queue.
unfoldable pub post : Server → Request → Result Server
post s req = elim s.worker [
  | none ↦ fault null_pointer
  | some queue ↦ ok (record s { worker = some (queue ++ (req ∷ [])) })
]

-- `handleCallActorMessage`: the caller gets the key of the future.
unfoldable pub handle_call_actor : Server → ℕ → CallActorMessage → Result Server
unfolding post
handle_call_actor s src msg =
    let (key, next) = take_key s.next_key in
    post (record s { next_key = next }) (record { source = src; key = key; call = some msg })
    >>= λ s1. ok (send s1 (response_code src key))

-- `stopActor` of the worker's proxy, which waits for the worker's thread to end, and the reset of
-- the pointer to the proxy.
unfoldable pub stop_worker : Server → Result Server
unfolding post
stop_worker s = post s (record { source = minus_one; key = 0; call = none }) >>= λ s1.
    ok (record s1 { worker = none })

-- `handleStopActorMessage`.
unfoldable pub handle_stop_actor : Server → ℕ → Bool → Result Server
unfolding stop_worker
handle_stop_actor s src ask_answer = stop_worker (record s { pids = [] }) >>= λ s1.
    ok (if ask_answer then send s1 (response_code src 0) else s1)

-- A message with its source, and what the collective operations that its handler may call give:
-- the keys that the head gathers and the distribution that the other processes hear.
pub record Incoming : Type 0 where
  pub src : ℕ
  pub message : Message
  pub gathered : List ℕ
  pub heard : VectorDistribution

module _ (codec : DvCodec) where
  -- `routeHandleMessage`.
  unfoldable pub route_message : List ℕ → VectorDistribution → Server → ℕ → Message → Result Server
  route_message gathered heard s src stop_actor_process = ok (record s { running = false })
  route_message gathered heard s src (create_actor name pids) = handle_create_actor s src pids
  route_message gathered heard s src (call_actor msg) = handle_call_actor s src msg
  route_message gathered heard s src (stop_actor ask) = handle_stop_actor s src ask
  route_message gathered heard s src (registers_future key bytes) =
      register_future codec heard s key bytes
  route_message gathered heard s src (get_future_data key) = ok (handle_get_future_data s src key)
  route_message gathered heard s src (release_future key) = ok (handle_release_future s key)
  route_message gathered heard s src (get_result_parts to parts) =
      handle_get_result_parts s src to parts
  route_message gathered heard s src (store_result resid bytes) = handle_store_result s resid bytes
  route_message gathered heard s src (release_result_part resid) =
      handle_release_result_part s resid
  route_message gathered heard s src (distribute_vector n size) =
      handle_distribute_vector s src n size
  route_message gathered heard s src (prefetch msg) = handle_prefetch codec gathered heard s src msg
  route_message gathered heard s src (fetch msg) = handle_fetch codec heard s msg
  route_message gathered heard s src (store_result_part msg) = handle_store_result_part s msg

  unfoldable pub handle : Server → Incoming → Result Server
  unfolding route_message
  handle s m = route_message m.gathered m.heard s m.src m.message

  -- The loop of `run`, over the messages that are received: one that the factory does not know is
  -- `none`, and is passed over. The thread ends after a stop message, and stops the worker first if
  -- there is one. When the messages run out it waits for more.
  unfoldable pub run : Server → List (Option Incoming) → Result Server
  unfolding handle
  run s [] = ok s
  run s (none ∷ ms) = run s ms
  run s (some m ∷ ms) = handle s m >>= λ s'.
      let rest = run s' ms in
      let stopped : Result Server = elim s'.worker [ none ↦ ok s' | some queue ↦ stop_worker s' ] in
      if s'.running then rest else stopped
