-- ===== src/Server/Safety.antt =====
-- The handlers of ActorServer.cpp one by one: the validity of the data store and the state of the
-- mutex.
pub mod Messages
pub mod History
pub mod Keys
pub mod Distinct
use activebsp.Base.{
  ℕ, ◌+◌, ◌<◌, ◌≡◌, refl, sym, ap, subst, ◌∙◌, ◌⊎◌, inl, inr, Bool, true, false, Option, none, some,
  Option-cases, Bool-cases, List, [], ◌∷◌, ◌++◌, arith, length, All, size_mod, Result, ok, fault,
  null_pointer, out_of_bounds, size_add, slice, to_int, ◌>>=◌, >>=-eq-ok, ok-injective, ltb, ◌==◌,
  ◌&&◌, not, if◌then◌else◌, has_key,
}
use activebsp.Distribution.VectorDistribution.{VectorDistribution}
use activebsp.Store.DataStore.{
  Bytes, DataStore, store_part_message, StoredMessage, add_data, remove_part, prepare_part_vector,
  get_part_data,
}
use activebsp.Store.DataStore.Invariant.{
  IsValid, stores_message, adds, removes, prepares, step, step-IsValid,
}
use activebsp.Message.{
  Message, ReqPart, StoreResultPartMessage, CallActorMessage, PrefetchMessage, FetchMessage,
  stop_actor_process, create_actor, stop_actor, call_actor, register_future as registers_future,
  get_future_data, release_future, store_result, store_result_part, release_result_part,
  get_result_parts, distribute_vector, prefetch, fetch,
}
use activebsp.Server.State.{
  Server, Sent, send, PendingResultRequest, result_part, intra_comm, is_head,
}
use activebsp.Server.Results.{
  handle_get_result_parts, handle_store_result, handle_release_result_part,
  handle_store_result_part, handle_distribute_vector, check_dv_part_required, send_pending,
}
use activebsp.Server.Results.Pending.{check_dv_part_required-Sends}
use activebsp.Server.Results.Answers.{InBounds, handle_get_result_parts_lem}
use activebsp.Server.Results.Layout.{handle_distribute_vector_lem}
use activebsp.Server.Fetch.{DvCodec, fetch_dv, handle_fetch}
use activebsp.Server.Fetch.Sends.{Sends, Sends-refl, Sends-trans, fetch_dv-Sends}
use activebsp.Server.Futures.{register_future, handle_get_future_data, handle_release_future}
use activebsp.Server.Futures.Cell.{parts-finished}
use activebsp.Server.Futures.Register.{register_future_ends}
use activebsp.Server.Route.{
  handle_create_actor, post, handle_call_actor, stop_worker, handle_stop_actor, route_message,
}

pub record IsSafe (s : Server) : Type 0 where
  pub store : IsValid s.parts
  pub free : s.locked ≡ false

-- The store and the mutex are as before.
abbrev pub Same : Server → Server → Type 0
Same s s' = (s'.parts ≡ s.parts) × (s'.locked ≡ s.locked)

pub Same-IsSafe : (s s' : Server) → Same s s' → IsSafe s → IsSafe s'
Same-IsSafe s s' (p, l) v = record { store = subst IsValid (sym p) v.store; free = l ∙ v.free }

check_dv_part_required-Same :
    (s : Server) (key : ℕ) {s' : Server}
    → s.locked ≡ false
    → check_dv_part_required s key ≡ ok s'
    → Same s s'
check_dv_part_required-Same s key free h =
    let (out, e) = check_dv_part_required-Sends s key free h in rw e (refl, refl)

module _ (codec : DvCodec) (heard : VectorDistribution) (s : Server) (free : s.locked ≡ false) where
  pub register_future-Same :
      (key : ℕ) (bytes : Bytes) {s' : Server}
      → register_future codec heard s key bytes ≡ ok s'
      → Same s s'
  register_future-Same key bytes h = elim (register_future_ends codec heard s key bytes free h) [
    | inl (alone, gone, e) ↦ rw e (refl, refl)
    | inr (out, left, e, f) ↦ rw e (parts-finished s key bytes out left)
  ]

  pub handle_fetch-Same :
      (msg : FetchMessage) {s' : Server} → handle_fetch codec heard s msg ≡ ok s' → Same s s'
  unfolding handle_fetch
  handle_fetch-Same msg h =
      let (comm, inside, rest) = >>=-eq-ok (intra_comm s) _ h in
      elim (Bool-cases (is_head comm && not (has_key s.future_data_store msg.req_future_key))) [
        | inl waits ↦ ground (arith, rest, waits)
        | inr now ↦
            let (out, e) = fetch_dv-Sends codec heard s msg free (rw now at rest) in
            rw e (refl, refl)
      ]

pub stop_worker-Same : (s : Server) {s' : Server} → stop_worker s ≡ ok s' → Same s s'
unfolding stop_worker post
stop_worker-Same s h = ground arith

pub handle_stop_actor-Same :
    (s : Server) (src : ℕ) (ask : Bool) {s' : Server}
    → handle_stop_actor s src ask ≡ ok s'
    → Same s s'
unfolding handle_stop_actor stop_worker post
handle_stop_actor-Same s src ask h = ground arith

pub handle_call_actor-Same :
    (s : Server) (src : ℕ) (msg : CallActorMessage) {s' : Server}
    → handle_call_actor s src msg ≡ ok s'
    → Same s s'
unfolding handle_call_actor post
handle_call_actor-Same s src msg h = ground arith

pub handle_create_actor-Same :
    (s : Server) (src : ℕ) (pids : List ℕ) {s' : Server}
    → handle_create_actor s src pids ≡ ok s'
    → Same s s'
unfolding handle_create_actor
handle_create_actor-Same s src [] h = cc
handle_create_actor-Same s src (pid ∷ pids) h = ground arith

pub handle_store_result-IsSafe :
    (s : Server) (key : ℕ) (bytes : Bytes) {s' : Server}
    → IsSafe s
    → handle_store_result s key bytes ≡ ok s'
    → IsSafe s'
unfolding handle_store_result step
handle_store_result-IsSafe s key bytes v h =
    let msg : StoredMessage = record { resid = key; data_size = length bytes; payload = bytes } in
    let (d, kept, rest) =
      >>=-eq-ok (store_part_message s.parts key msg)
        (λ d. check_dv_part_required (record s { parts = d; locked = false }) key)
        (rw (v.free, handle_store_result) at h) in
    let next : Server = record s { parts = d; locked = false } in
    Same-IsSafe next _ (check_dv_part_required-Same next key refl rest) (record {
      store = step-IsValid s.parts (stores_message key msg) v.store refl kept;
      free = refl;
    })

pub handle_release_result_part-IsSafe :
    (s : Server) (key : ℕ) {s' : Server}
    → IsSafe s
    → handle_release_result_part s key ≡ ok s'
    → IsSafe s'
unfolding handle_release_result_part step
handle_release_result_part-IsSafe s key v h =
    let (d, gone, rest) =
      >>=-eq-ok (remove_part s.parts key) (λ d. ok (record s { parts = d; locked = false }))
        (rw (v.free, handle_release_result_part) at h) in
    let d-IsValid : IsValid d = step-IsValid s.parts (removes key) v.store tt gone in
    record { store = subst IsValid (ground (arith, rest)) d-IsValid; free = ground (arith, rest) }

pub handle_store_result_part-IsSafe :
    (s : Server) (msg : StoreResultPartMessage) {s' : Server}
    → IsSafe s
    → msg.offset + length msg.bytes < size_mod
    → handle_store_result_part s msg ≡ ok s'
    → IsSafe s'
unfolding handle_store_result_part step
handle_store_result_part-IsSafe s msg {s' = s'} v small h =
    let ((left, d), added, rest) =
      >>=-eq-ok (add_data s.parts msg.resid msg.bytes msg.offset)
        (λ (left, d).
          if left == 0
          then check_dv_part_required (record s { parts = d; locked = false }) msg.resid
          else ok (record s { parts = d; locked = false }))
        (rw (v.free, handle_store_result_part) at h) in
    let next : Server = record s { parts = d; locked = false } in
    let next-IsSafe : IsSafe next = record {
      store =
          step-IsValid s.parts (adds msg.resid msg.bytes msg.offset) v.store small (rw added refl);
      free = refl;
    } in
    elim (Bool-cases (left == 0)) [
      | inl whole ↦
          Same-IsSafe next s' (check_dv_part_required-Same next msg.resid refl (rw whole at rest))
            next-IsSafe
      | inr more ↦ Same-IsSafe next s' (ground (arith, rest, more)) next-IsSafe
    ]
