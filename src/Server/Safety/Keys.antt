-- ===== src/Server/Safety/Keys.antt =====
-- The keys of futures and parts that a process gives out.
use activebsp.Base.{
  ℕ, ◌≡◌, refl, inl, inr, Bool, false, Bool-cases, List, [], ◌∷◌, ◌++◌, arith, ok, >>=-eq-ok,
  int_add, size_sub, length, drop, if◌then◌else◌, ◌==◌, ◌&&◌, not, has_key,
}
use activebsp.Distribution.BlockRange.{div_range}
use activebsp.Distribution.VectorDistribution.{VectorDistribution}
use activebsp.Store.DataStore.{
  Bytes, StoredMessage, store_part_message, add_data, remove_part, prepare_part_vector,
}
use activebsp.Store.Futures.{take_key}
use activebsp.Message.{
  CallActorMessage, PrefetchMessage, FetchMessage, StoreResultPartMessage, prefetch,
}
use activebsp.Server.State.{Server, IntraComm, send, response_code, intra_comm, is_head}
use activebsp.Server.Results.{
  handle_store_result, handle_release_result_part, handle_store_result_part, check_dv_part_required,
}
use activebsp.Server.Results.Pending.{check_dv_part_required-Sends}
use activebsp.Server.Fetch.{DvCodec, handle_fetch}
use activebsp.Server.Fetch.Sends.{send_to_all-Sends, fetch_dv-Sends}
use activebsp.Server.Futures.{register_future}
use activebsp.Server.Futures.Cell.{next_key-finished}
use activebsp.Server.Futures.Register.{register_future_ends}
use activebsp.Server.Prefetch.{announce, make_room}
use activebsp.Server.Route.{
  post, stop_worker, handle_create_actor, handle_call_actor, handle_stop_actor,
}

pub announce-next_key :
    (s : Server) (src : ℕ) (msg : PrefetchMessage)
    → (announce s src msg).1.next_key ≡ int_add s.next_key 1
unfolding announce take_key
announce-next_key s src msg =
    let (out, e) =
      send_to_all-Sends
        (send (record s { next_key = (take_key s.next_key).1 }) (response_code src s.next_key))
        (drop 1 s.pids) (prefetch msg) in
    rw e refl

pub make_room-next_key :
    (s : Server) (comm : IntraComm) (size key : ℕ) {t : Server}
    → s.locked ≡ false
    → make_room s comm size ≡ ok (key, t)
    → (t.locked ≡ false) × (t.next_key ≡ int_add s.next_key 1)
unfolding make_room take_key
make_room-next_key s comm size key free h =
    let r = div_range size comm.pid comm.nprocs in
    let (d, ready, rest) =
      >>=-eq-ok (prepare_part_vector s.parts s.next_key (size_sub r.1 r.0)) _
        (rw (free, make_room) at h) in
    (ground (arith, rest), ground (arith, rest))

pub handle_create_actor-next_key :
    (s : Server) (src : ℕ) (pids : List ℕ) {t : Server}
    → handle_create_actor s src pids ≡ ok t
    → t.next_key ≡ s.next_key
unfolding handle_create_actor
handle_create_actor-next_key s src [] h = cc
handle_create_actor-next_key s src (pid ∷ pids) h = ground arith

pub handle_stop_actor-next_key :
    (s : Server) (src : ℕ) (ask : Bool) {t : Server}
    → handle_stop_actor s src ask ≡ ok t
    → t.next_key ≡ s.next_key
unfolding handle_stop_actor stop_worker post
handle_stop_actor-next_key s src ask h = ground arith

-- A call is answered with the key that comes next.
pub handle_call_actor-next_key :
    (s : Server) (src : ℕ) (msg : CallActorMessage) {t : Server}
    → handle_call_actor s src msg ≡ ok t
    → (t.next_key ≡ int_add s.next_key 1)
      × (t.sent ≡ s.sent ++ (response_code src s.next_key ∷ []))
      × (t.parts ≡ s.parts)
      × (t.locked ≡ s.locked)
unfolding handle_call_actor post take_key
handle_call_actor-next_key s src msg h = (ground arith, ground arith, ground arith, ground arith)

required-next_key :
    (s : Server) (key : ℕ) {t : Server}
    → s.locked ≡ false
    → check_dv_part_required s key ≡ ok t
    → t.next_key ≡ s.next_key
required-next_key s key free h =
    let (out, e) = check_dv_part_required-Sends s key free h in rw e refl

module _ (s : Server) (free : s.locked ≡ false) where
  pub handle_store_result-next_key :
      (key : ℕ) (bytes : Bytes) {t : Server}
      → handle_store_result s key bytes ≡ ok t
      → t.next_key ≡ s.next_key
  unfolding handle_store_result
  handle_store_result-next_key key bytes h =
      let msg : StoredMessage = record { resid = key; data_size = length bytes; payload = bytes } in
      let (d, kept, rest) =
        >>=-eq-ok (store_part_message s.parts key msg)
          (λ d. check_dv_part_required (record s { parts = d; locked = false }) key)
          (rw (free, handle_store_result) at h) in
      required-next_key (record s { parts = d; locked = false }) key refl rest

  pub handle_release_result_part-next_key :
      (key : ℕ) {t : Server} → handle_release_result_part s key ≡ ok t → t.next_key ≡ s.next_key
  unfolding handle_release_result_part
  handle_release_result_part-next_key key h =
      let (d, gone, rest) =
        >>=-eq-ok (remove_part s.parts key) (λ d. ok (record s { parts = d; locked = false }))
          (rw (free, handle_release_result_part) at h) in
      ground (arith, rest)

  pub handle_store_result_part-next_key :
      (msg : StoreResultPartMessage) {t : Server}
      → handle_store_result_part s msg ≡ ok t
      → t.next_key ≡ s.next_key
  unfolding handle_store_result_part
  handle_store_result_part-next_key msg h =
      let ((left, d), added, rest) =
        >>=-eq-ok (add_data s.parts msg.resid msg.bytes msg.offset)
          (λ (left, d).
            if left == 0
            then check_dv_part_required (record s { parts = d; locked = false }) msg.resid
            else ok (record s { parts = d; locked = false }))
          (rw (free, handle_store_result_part) at h) in
      let after : Server = record s { parts = d; locked = false } in
      elim (Bool-cases (left == 0)) [
        | inl whole ↦ required-next_key after msg.resid refl (rw whole at rest)
        | inr more ↦ ground (arith, rest, more)
      ]

module _ (codec : DvCodec) (heard : VectorDistribution) (s : Server) (free : s.locked ≡ false) where
  pub register_future-next_key :
      (key : ℕ) (bytes : Bytes) {t : Server}
      → register_future codec heard s key bytes ≡ ok t
      → t.next_key ≡ s.next_key
  register_future-next_key key bytes h =
      elim (register_future_ends codec heard s key bytes free h) [
        | inl (alone, gone, e) ↦ rw e refl
        | inr (out, left, e, f) ↦ rw e (next_key-finished s key bytes out left)
      ]

  pub handle_fetch-next_key :
      (msg : FetchMessage) {t : Server}
      → handle_fetch codec heard s msg ≡ ok t
      → t.next_key ≡ s.next_key
  unfolding handle_fetch
  handle_fetch-next_key msg h =
      let (comm, inside, rest) = >>=-eq-ok (intra_comm s) _ h in
      elim (Bool-cases (is_head comm && not (has_key s.future_data_store msg.req_future_key))) [
        | inl waits ↦ ground (arith, rest, waits)
        | inr now ↦
            let (out, e) = fetch_dv-Sends codec heard s msg free (rw now at rest) in rw e refl
      ]
