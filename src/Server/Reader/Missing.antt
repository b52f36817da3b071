-- ===== src/Server/Reader/Missing.antt =====
-- The parts that are not there or not whole, over the messages that do not wake the reader.
use activebsp.Base.{
  ◌⊎◌, ℕ, ◌<◌, ◌≡◌, subst, sym, ◌∙◌, inl, inr, false, Bool-cases, Option, none, some, List, arith,
  ok, >>=-eq-ok, ok-injective, size_sub, int_add,
}
use activebsp.Distribution.BlockRange.{div_range}
use activebsp.Distribution.VectorDistribution.{VectorDistribution}
use activebsp.Store.DataStore.{DataStore, DvPart, prepare_part_vector, remove_part}
use activebsp.Store.Futures.{take_key, find_future_data}
use activebsp.Message.{
  Message, PrefetchMessage, stop_actor_process, create_actor, stop_actor, call_actor,
  register_future as registers_future, get_future_data, release_future, store_result,
  store_result_part, release_result_part, get_result_parts, distribute_vector, prefetch, fetch,
}
use activebsp.Server.State.{Server, IntraComm, intra_comm, is_head}
use activebsp.Server.Results.{handle_release_result_part}
use activebsp.Server.Results.Answers.{handle_get_result_parts_lem}
use activebsp.Server.Results.Layout.{handle_distribute_vector_lem}
use activebsp.Server.Fetch.{DvCodec}
use activebsp.Server.Futures.{handle_get_future_data, handle_release_future}
use activebsp.Server.Prefetch.{announce, make_room, request_fetch, handle_prefetch}
use activebsp.Server.Route.{route_message}
use activebsp.Server.Safety.{
  IsSafe, Same, register_future-Same, handle_fetch-Same, handle_stop_actor-Same,
  handle_call_actor-Same, handle_create_actor-Same,
}
use activebsp.Server.Safety.Keys.{announce-next_key}
use activebsp.Server.Safety.Messages.{IsProper, announce-Same, request_fetch-Same}
use activebsp.Server.Reader.{broadcasts}

-- A part that is not there or not whole, or that is empty, so that its pointer may be null.
abbrev pub Missing : Option DvPart → Type 0
Missing none = Unit
Missing (some p) = (0 < p.remaining_bytes) ⊎ (p.size ≡ 0)

abbrev pub IsMissing : DataStore → ℕ → Type 0
IsMissing d key = Missing (d.dv_parts key)

Same-IsMissing : (s t : Server) (key : ℕ) → Same s t → IsMissing s.parts key → IsMissing t.parts key
Same-IsMissing s t key (same, locked) m = subst (λ d. IsMissing d key) (sym same) m

remove_part-IsMissing :
    (d : DataStore) (key gone : ℕ) {d' : DataStore}
    → remove_part d gone ≡ ok d'
    → IsMissing d key
    → IsMissing d' key
unfolding remove_part
remove_part-IsMissing d key gone h m = ground (arith, m)

prepare_part_vector-IsMissing :
    (d : DataStore) (key new n : ℕ) {d' : DataStore}
    → (key ≡ new → ⊥)
    → prepare_part_vector d new n ≡ ok d'
    → IsMissing d key
    → IsMissing d' key
unfolding prepare_part_vector
prepare_part_vector-IsMissing d key new n other h m = ground (arith, m)

handle_release_result_part-IsMissing :
    (s : Server) (key gone : ℕ) {t : Server}
    → s.locked ≡ false
    → handle_release_result_part s gone ≡ ok t
    → IsMissing s.parts key
    → IsMissing t.parts key
unfolding handle_release_result_part
handle_release_result_part-IsMissing s key gone free h m =
    let (d, removed, rest) =
      >>=-eq-ok (remove_part s.parts gone) (λ d. ok (record s { parts = d; locked = false }))
        (rw (free, handle_release_result_part) at h) in
    subst (λ (t : Server). IsMissing t.parts key) (ok-injective rest)
      (remove_part-IsMissing s.parts key gone removed m)

make_room-IsMissing :
    (s : Server) (comm : IntraComm) (size key part_key : ℕ) {t : Server}
    → s.locked ≡ false
    → (key ≡ s.next_key → ⊥)
    → make_room s comm size ≡ ok (part_key, t)
    → IsMissing s.parts key
    → (t.locked ≡ false) × IsMissing t.parts key
unfolding make_room take_key
make_room-IsMissing s comm size key part_key {t = t} free other h m =
    let r = div_range size comm.pid comm.nprocs in
    let (d, ready, rest) =
      >>=-eq-ok (prepare_part_vector s.parts s.next_key (size_sub r.1 r.0)) _
        (rw (free, make_room) at h) in
    let same : d ≡ t.parts = ground (arith, rest) in
    (
      ground (arith, rest),
      subst (λ parts. IsMissing parts key) same
          (prepare_part_vector-IsMissing s.parts key s.next_key (size_sub r.1 r.0) other ready m),
    )

module _ (codec : DvCodec) (gathered : List ℕ) (heard : VectorDistribution) (key : ℕ) where
  handle_prefetch-IsMissing :
      (s : Server) (src : ℕ) (msg : PrefetchMessage) {t : Server}
      → s.locked ≡ false
      → (key ≡ s.next_key → ⊥)
      → (key ≡ int_add s.next_key 1 → ⊥)
      → handle_prefetch codec gathered heard s src msg ≡ ok t
      → IsMissing s.parts key
      → IsMissing t.parts key
  unfolding handle_prefetch
  handle_prefetch-IsMissing s src msg {t = t} free this after h m =
      let (comm, inside, rest) = >>=-eq-ok (intra_comm s) _ h in
      elim (Bool-cases (is_head comm)) [
        | inl e ↦
            let a = announce s src msg in
            let (same, locked) = announce-Same s src msg in
            let ((part_key, u), made, last) =
              >>=-eq-ok (make_room a.1 comm msg.dv_size)
                (λ (part_key, u). request_fetch codec gathered heard u comm msg a.0)
                (rw e at rest) in
            let (unlocked, missing) =
              make_room-IsMissing a.1 comm msg.dv_size key part_key (locked ∙ free)
                (λ k. after (k ∙ announce-next_key s src msg)) made
                (subst (λ d. IsMissing d key) (sym same) m) in
            Same-IsMissing u t key
              (request_fetch-Same codec gathered heard u comm msg a.0 unlocked last) missing
        | inr e ↦
            let ((part_key, u), made, last) =
              >>=-eq-ok (make_room s comm msg.dv_size) (λ (part_key, u). ok u) (rw e at rest) in
            let (unlocked, missing) =
              make_room-IsMissing s comm msg.dv_size key part_key free this made m in
            subst (λ (v : Server). IsMissing v.parts key) (ok-injective last) missing
      ]

  -- A message whose handler does not wake the reader leaves a missing part missing.
  pub route_message-IsMissing :
      (s : Server) (src : ℕ) (m : Message) {t : Server}
      → IsSafe s
      → IsProper codec gathered heard s m
      → (key ≡ s.next_key → ⊥)
      → (key ≡ int_add s.next_key 1 → ⊥)
      → broadcasts m ≡ false
      → route_message codec gathered heard s src m ≡ ok t
      → IsMissing s.parts key
      → IsMissing t.parts key
  unfolding route_message broadcasts handle_get_future_data handle_release_future find_future_data
  route_message-IsMissing s src stop_actor_process {t = t} v p this after b h m =
      Same-IsMissing s t key (ground arith) m
  route_message-IsMissing s src (create_actor name pids) {t = t} v p this after b h m =
      Same-IsMissing s t key (handle_create_actor-Same s src pids h) m
  route_message-IsMissing s src (call_actor msg) {t = t} v p this after b h m =
      Same-IsMissing s t key (handle_call_actor-Same s src msg h) m
  route_message-IsMissing s src (stop_actor ask) {t = t} v p this after b h m =
      Same-IsMissing s t key (handle_stop_actor-Same s src ask h) m
  route_message-IsMissing s src (registers_future k bytes) {t = t} v p this after b h m =
      Same-IsMissing s t key (register_future-Same codec heard s v.free k bytes h) m
  route_message-IsMissing s src (get_future_data k) {t = t} v p this after b h m =
      Same-IsMissing s t key (ground arith) m
  route_message-IsMissing s src (release_future k) {t = t} v p this after b h m =
      Same-IsMissing s t key (ground arith) m
  route_message-IsMissing s src (get_result_parts to parts) {t = t} v p this after b h m =
      let e = handle_get_result_parts_lem s src to parts v.store v.free p in
      Same-IsMissing s t key (ground (arith, e, h)) m
  route_message-IsMissing s src (store_result resid bytes) v p this after b h m = absurd cc
  route_message-IsMissing s src (release_result_part k) v p this after b h m =
      handle_release_result_part-IsMissing s key k v.free h m
  route_message-IsMissing s src (distribute_vector n size) {t = t} v p this after b h m =
      let e = handle_distribute_vector_lem s src n size in
      Same-IsMissing s t key (ground (arith, e, h)) m
  route_message-IsMissing s src (prefetch msg) v p this after b h m =
      handle_prefetch-IsMissing s src msg v.free this after h m
  route_message-IsMissing s src (fetch msg) {t = t} v p this after b h m =
      Same-IsMissing s t key (handle_fetch-Same codec heard s v.free msg h) m
  route_message-IsMissing s src (store_result_part msg) v p this after b h m = absurd cc
