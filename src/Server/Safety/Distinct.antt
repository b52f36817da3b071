-- ===== src/Server/Safety/Distinct.antt =====
-- That no two calls get the same key.
use activebsp.Base.{
  ◌≢◌, ℕ, ◌+◌, ◌%◌, ◌<◌, ◌≡◌, refl, sym, ap, ◌∙◌, inl, inr, false, Bool-cases, none, some, List, [],
  ◌∷◌, ◌++◌, arith, ok, >>=-eq-ok, ok-injective, int_mod, if◌then◌else◌,
}
use activebsp.Distribution.VectorDistribution.{VectorDistribution, vector_distribution}
use activebsp.Store.DataStore.Invariant.{data_store-IsValid}
use activebsp.Store.Futures.{take_key, find_future_data}
use activebsp.Message.{
  Message, CallActorMessage, PrefetchMessage, stop_actor_process, create_actor, stop_actor,
  call_actor, register_future as registers_future, get_future_data, release_future, store_result,
  store_result_part, release_result_part, get_result_parts, distribute_vector, prefetch, fetch,
}
use activebsp.Server.State.{
  Server, IntraComm, start, send, response_code, intra_comm, is_head, set_intra_actor_comm,
}
use activebsp.Server.Results.Answers.{handle_get_result_parts_lem}
use activebsp.Server.Results.Layout.{handle_distribute_vector_lem}
use activebsp.Server.Fetch.{DvCodec}
use activebsp.Server.Futures.{handle_get_future_data, handle_release_future}
use activebsp.Server.Prefetch.{announce, make_room, register_rooms, request_fetch, handle_prefetch}
use activebsp.Server.Route.{handle_call_actor, route_message, handle}
use activebsp.Server.Safety.{IsSafe, Same-IsSafe}
use activebsp.Server.Safety.Messages.{IsProper, announce-Same}
use activebsp.Server.Safety.History.{
  Step, Reaches, Reaches-IsSafe, handles, sets_comm, takes_request, takes_key, here, next,
}
use activebsp.Server.Safety.Keys.{
  announce-next_key, make_room-next_key, handle_create_actor-next_key, handle_stop_actor-next_key,
  handle_call_actor-next_key, handle_store_result-next_key, handle_release_result_part-next_key,
  handle_store_result_part-next_key, register_future-next_key, handle_fetch-next_key,
}

-- The keys that the handler of a message takes.
abbrev pub keys_of : Server → Message → ℕ
keys_of s (call_actor msg) = 1
keys_of s (prefetch msg) = elim s.intra [ none ↦ 0 | some comm ↦ if is_head comm then 2 else 1 ]
keys_of s _ = 0

-- `k` keys were taken between two states.
abbrev pub Taken : Server → ℕ → Server → Type 0
Taken s k t = t.next_key % int_mod ≡ (s.next_key + k) % int_mod

Taken-none : (s t : Server) → t.next_key ≡ s.next_key → Taken s 0 t
Taken-none s t e = omega (arith, e)

module _ (codec : DvCodec) (gathered : List ℕ) (heard : VectorDistribution) where
  request_fetch-next_key :
      (s : Server) (comm : IntraComm) (msg : PrefetchMessage) (key : ℕ) {t : Server}
      → s.locked ≡ false
      → request_fetch codec gathered heard s comm msg key ≡ ok t
      → t.next_key ≡ s.next_key
  unfolding request_fetch
  request_fetch-next_key s comm msg key free h =
      let (vd, laid_out, rest) =
        >>=-eq-ok
          (register_rooms msg.dv_size comm.nprocs 0 comm.nprocs s.pids gathered
            (vector_distribution comm.nprocs))
          _ h in
      register_future-next_key codec heard (send s _) free key (codec.serialize vd) rest

  handle_prefetch-Taken :
      (s : Server) (src : ℕ) (msg : PrefetchMessage) {t : Server}
      → s.locked ≡ false
      → handle_prefetch codec gathered heard s src msg ≡ ok t
      → Taken s (keys_of s (prefetch msg)) t
  unfolding handle_prefetch
  handle_prefetch-Taken s src msg {t = t} free h =
      let (comm, inside, rest) = >>=-eq-ok (intra_comm s) _ h in
      let there : s.intra ≡ some comm = ground (arith, inside) in
      elim (Bool-cases (is_head comm)) [
        | inl e ↦
            let a = announce s src msg in
            let (same, locked) = announce-Same s src msg in
            let ((part_key, u), made, last) =
              >>=-eq-ok (make_room a.1 comm msg.dv_size)
                (λ (part_key, u). request_fetch codec gathered heard u comm msg a.0)
                (rw e at rest) in
            let (unlocked, room) =
              make_room-next_key a.1 comm msg.dv_size part_key (locked ∙ free) made in
            let kept = request_fetch-next_key u comm msg a.0 unlocked last in
            rw (there, e) (omega (arith, kept, room, announce-next_key s src msg))
        | inr e ↦
            let ((part_key, u), made, last) =
              >>=-eq-ok (make_room s comm msg.dv_size) (λ (part_key, u). ok u) (rw e at rest) in
            let (unlocked, room) = make_room-next_key s comm msg.dv_size part_key free made in
            let kept : t.next_key ≡ u.next_key =
              ap (λ (v : Server). v.next_key) (sym (ok-injective last)) in
            rw (there, e) (omega (arith, kept, room))
      ]

  route_message-Taken :
      (s : Server) (src : ℕ) (m : Message) {t : Server}
      → IsSafe s
      → IsProper codec gathered heard s m
      → route_message codec gathered heard s src m ≡ ok t
      → Taken s (keys_of s m) t
  unfolding route_message handle_get_future_data handle_release_future find_future_data
  route_message-Taken s src stop_actor_process {t = t} v p h = Taken-none s t (ground arith)
  route_message-Taken s src (create_actor name pids) {t = t} v p h =
      Taken-none s t (handle_create_actor-next_key s src pids h)
  route_message-Taken s src (call_actor msg) {t = t} v p h =
      omega (arith, (handle_call_actor-next_key s src msg h).0)
  route_message-Taken s src (stop_actor ask) {t = t} v p h =
      Taken-none s t (handle_stop_actor-next_key s src ask h)
  route_message-Taken s src (registers_future key bytes) {t = t} v p h =
      Taken-none s t (register_future-next_key codec heard s v.free key bytes h)
  route_message-Taken s src (get_future_data key) {t = t} v p h = Taken-none s t (ground arith)
  route_message-Taken s src (release_future key) {t = t} v p h = Taken-none s t (ground arith)
  route_message-Taken s src (get_result_parts to parts) {t = t} v p h =
      let e = handle_get_result_parts_lem s src to parts v.store v.free p in
      Taken-none s t (ground (arith, e, h))
  route_message-Taken s src (store_result key bytes) {t = t} v p h =
      Taken-none s t (handle_store_result-next_key s v.free key bytes h)
  route_message-Taken s src (release_result_part key) {t = t} v p h =
      Taken-none s t (handle_release_result_part-next_key s v.free key h)
  route_message-Taken s src (distribute_vector n size) {t = t} v p h =
      let e = handle_distribute_vector_lem s src n size in Taken-none s t (ground (arith, e, h))
  route_message-Taken s src (prefetch msg) v p h = handle_prefetch-Taken s src msg v.free h
  route_message-Taken s src (fetch msg) {t = t} v p h =
      Taken-none s t (handle_fetch-next_key codec heard s v.free msg h)
  route_message-Taken s src (store_result_part msg) {t = t} v p h =
      Taken-none s t (handle_store_result_part-next_key s v.free msg h)

module _ (codec : DvCodec) where
  -- The keys that a history takes.
  abbrev pub step_keys : {s t : Server} → Step codec s t → ℕ
  step_keys {s = s} (handles m p h) = keys_of s m.message
  step_keys (sets_comm comm) = 0
  step_keys (takes_request req queue e) = 0
  step_keys takes_key = 1

  abbrev pub history_keys : {s t : Server} → Reaches codec s t → ℕ
  history_keys here = 0
  history_keys (next before step) = history_keys before + step_keys step

  Step-Taken : {s t : Server} → (step : Step codec s t) → IsSafe s → Taken s (step_keys step) t
  unfolding handle set_intra_actor_comm take_key
  Step-Taken {s = s} (handles m p h) v =
      route_message-Taken codec m.gathered m.heard s m.src m.message v p h
  Step-Taken (sets_comm comm) v = omega arith
  Step-Taken (takes_request req queue e) v = omega arith
  Step-Taken takes_key v = omega arith

  Reaches-Taken :
      {s t : Server} → (history : Reaches codec s t) → IsSafe s → Taken s (history_keys history) t
  Reaches-Taken here v = omega arith
  Reaches-Taken (next before step) v =
      omega (arith, Reaches-Taken before v, Step-Taken step (Reaches-IsSafe codec before v))

  -- Two calls that a server handles, the first after any history of proper messages and steps of
  -- the worker's thread from its start, the second after such a history from there that takes fewer
  -- than 2 ^ 32 - 1 keys: each caller is answered with a key, and the two keys are different.
  pub calls_get_distinct_keys :
      (pid : ℕ) {s t u w : Server}
      → Reaches codec (start pid) s
      → (src : ℕ) (msg : CallActorMessage) → handle_call_actor s src msg ≡ ok t
      → (between : Reaches codec t u) → history_keys between + 1 < int_mod
      → (src' : ℕ) (msg' : CallActorMessage) → handle_call_actor u src' msg' ≡ ok w
      → (key key' : ℕ) × (t.sent ≡ s.sent ++ (response_code src key ∷ []))
        × (w.sent ≡ u.sent ++ (response_code src' key' ∷ []))
        × (key ≢ key')
  unfolding start
  calls_get_distinct_keys pid {s = s} {t = t} {u = u} before src msg first between few src' msg'
        second =
      let v = Reaches-IsSafe codec before (record { store = data_store-IsValid; free = refl }) in
      let (taken, answer, parts, locked) = handle_call_actor-next_key s src msg first in
      let (taken', answer', parts', locked') = handle_call_actor-next_key u src' msg' second in
      let t-IsSafe = Same-IsSafe s t (parts, locked) v in
      let since = Reaches-Taken between t-IsSafe in
      (s.next_key, u.next_key, answer, answer', λ e. omega (arith, taken, since, few, e))
