-- ===== src/Server/Safety/Messages.antt =====
-- The same for `routeHandleMessage` of ActorServer.cpp, over every kind of message.
use activebsp.Base.{
  ℕ, ◌+◌, ◌<◌, ◌≡◌, refl, subst, inl, inr, false, Bool-cases, List, arith, length, All, size_mod,
  ok, >>=-eq-ok, size_sub, drop,
}
use activebsp.Distribution.BlockRange.{div_range}
use activebsp.Distribution.VectorDistribution.{VectorDistribution, vector_distribution}
use activebsp.Store.DataStore.{prepare_part_vector}
use activebsp.Store.DataStore.Invariant.{IsValid, prepares, step, step-IsValid}
use activebsp.Store.Futures.{take_key, find_future_data}
use activebsp.Message.{
  Message, PrefetchMessage, stop_actor_process, create_actor, stop_actor, call_actor,
  register_future as registers_future, get_future_data, release_future, store_result,
  store_result_part, release_result_part, get_result_parts, distribute_vector, prefetch, fetch,
}
use activebsp.Server.State.{Server, IntraComm, send, response_code, intra_comm, is_head}
use activebsp.Server.Results.Answers.{InBounds, handle_get_result_parts_lem}
use activebsp.Server.Results.Layout.{handle_distribute_vector_lem}
use activebsp.Server.Fetch.{DvCodec}
use activebsp.Server.Fetch.Sends.{send_to_all-Sends}
use activebsp.Server.Futures.{handle_get_future_data, handle_release_future}
use activebsp.Server.Prefetch.{announce, make_room, register_rooms, request_fetch, handle_prefetch}
use activebsp.Server.Route.{route_message}
use activebsp.Server.Safety.{
  IsSafe, Same, Same-IsSafe, register_future-Same, handle_fetch-Same, handle_stop_actor-Same,
  handle_call_actor-Same, handle_create_actor-Same, handle_store_result-IsSafe,
  handle_release_result_part-IsSafe, handle_store_result_part-IsSafe,
}

pub announce-Same : (s : Server) (src : ℕ) (msg : PrefetchMessage) → Same s (announce s src msg).1
unfolding announce take_key
announce-Same s src msg =
    let (out, e) =
      send_to_all-Sends
        (send (record s { next_key = (take_key s.next_key).1 }) (response_code src s.next_key))
        (drop 1 s.pids) (prefetch msg) in
    rw e (refl, refl)

make_room-IsSafe :
    (s : Server) (comm : IntraComm) (size key : ℕ) {s' : Server}
    → IsSafe s
    → make_room s comm size ≡ ok (key, s')
    → IsSafe s'
unfolding make_room step take_key
make_room-IsSafe s comm size key v h =
    let r = div_range size comm.pid comm.nprocs in
    let (d, ready, rest) =
      >>=-eq-ok (prepare_part_vector s.parts s.next_key (size_sub r.1 r.0)) _
        (rw (v.free, make_room) at h) in
    let d-IsValid : IsValid d =
      step-IsValid s.parts (prepares s.next_key (size_sub r.1 r.0)) v.store tt ready in
    record { store = subst IsValid (ground (arith, rest)) d-IsValid; free = ground (arith, rest) }

module _ (codec : DvCodec) (gathered : List ℕ) (heard : VectorDistribution) where
  pub request_fetch-Same :
      (s : Server) (comm : IntraComm) (msg : PrefetchMessage) (key : ℕ) {s' : Server}
      → s.locked ≡ false
      → request_fetch codec gathered heard s comm msg key ≡ ok s'
      → Same s s'
  unfolding request_fetch
  request_fetch-Same s comm msg key free h =
      let (vd, laid_out, rest) =
        >>=-eq-ok
          (register_rooms msg.dv_size comm.nprocs 0 comm.nprocs s.pids gathered
            (vector_distribution comm.nprocs))
          _ h in
      register_future-Same codec heard (send s _) free key (codec.serialize vd) rest

  handle_prefetch-IsSafe :
      (s : Server) (src : ℕ) (msg : PrefetchMessage) {s' : Server}
      → IsSafe s
      → handle_prefetch codec gathered heard s src msg ≡ ok s'
      → IsSafe s'
  unfolding handle_prefetch
  handle_prefetch-IsSafe s src msg {s' = s'} v h =
      let (comm, inside, rest) = >>=-eq-ok (intra_comm s) _ h in
      elim (Bool-cases (is_head comm)) [
        | inl e ↦
            let t = announce s src msg in
            let t-IsSafe = Same-IsSafe s t.1 (announce-Same s src msg) v in
            let ((key, u), made, last) =
              >>=-eq-ok (make_room t.1 comm msg.dv_size)
                (λ (part_key, u). request_fetch codec gathered heard u comm msg t.0)
                (rw e at rest) in
            let u-IsSafe = make_room-IsSafe t.1 comm msg.dv_size key t-IsSafe made in
            Same-IsSafe u s' (request_fetch-Same u comm msg t.0 u-IsSafe.free last) u-IsSafe
        | inr e ↦
            let ((key, u), made, last) =
              >>=-eq-ok (make_room s comm msg.dv_size) (λ (part_key, u). ok u) (rw e at rest) in
            let u-IsSafe = make_room-IsSafe s comm msg.dv_size key v made in
            Same-IsSafe u s' (ground (arith, last)) u-IsSafe
      ]

  -- A chunk ends below 2 ^ 64, and the ranges that are asked for lie in their parts.
  abbrev pub IsProper : Server → Message → Type 0
  IsProper s (store_result_part msg) = msg.offset + length msg.bytes < size_mod
  IsProper s (get_result_parts forward_to parts) = All (InBounds s.parts) parts
  IsProper s _ = Unit {0}

  -- Every message that the server handles and that is proper keeps the data store valid and leaves
  -- the mutex free: a chunk ends below 2 ^ 64, and the ranges that a request asks for lie in their
  -- parts, of fewer than 2 ^ 31 bytes, as far as these are available.
  pub route_message-IsSafe :
      (s : Server) (src : ℕ) (m : Message) {s' : Server}
      → IsSafe s
      → IsProper s m
      → route_message codec gathered heard s src m ≡ ok s'
      → IsSafe s'
  unfolding route_message handle_get_future_data handle_release_future find_future_data
  route_message-IsSafe s src stop_actor_process {s' = s'} v p h = Same-IsSafe s s' (ground arith) v
  route_message-IsSafe s src (create_actor name pids) {s' = s'} v p h =
      Same-IsSafe s s' (handle_create_actor-Same s src pids h) v
  route_message-IsSafe s src (call_actor msg) {s' = s'} v p h =
      Same-IsSafe s s' (handle_call_actor-Same s src msg h) v
  route_message-IsSafe s src (stop_actor ask) {s' = s'} v p h =
      Same-IsSafe s s' (handle_stop_actor-Same s src ask h) v
  route_message-IsSafe s src (registers_future key bytes) {s' = s'} v p h =
      Same-IsSafe s s' (register_future-Same codec heard s v.free key bytes h) v
  route_message-IsSafe s src (get_future_data key) {s' = s'} v p h =
      Same-IsSafe s s' (ground arith) v
  route_message-IsSafe s src (release_future key) {s' = s'} v p h =
      Same-IsSafe s s' (ground arith) v
  route_message-IsSafe s src (get_result_parts to parts) {s' = s'} v p h =
      Same-IsSafe s s'
        (let e = handle_get_result_parts_lem s src to parts v.store v.free p in
          ground (arith, e, h))
        v
  route_message-IsSafe s src (store_result key bytes) v p h =
      handle_store_result-IsSafe s key bytes v h
  route_message-IsSafe s src (release_result_part key) v p h =
      handle_release_result_part-IsSafe s key v h
  route_message-IsSafe s src (distribute_vector n size) {s' = s'} v p h =
      Same-IsSafe s s' (let e = handle_distribute_vector_lem s src n size in ground (arith, e, h)) v
  route_message-IsSafe s src (prefetch msg) v p h = handle_prefetch-IsSafe s src msg v h
  route_message-IsSafe s src (fetch msg) {s' = s'} v p h =
      Same-IsSafe s s' (handle_fetch-Same codec heard s v.free msg h) v
  route_message-IsSafe s src (store_result_part msg) v p h =
      handle_store_result_part-IsSafe s msg v p h
