-- ===== src/Server/Futures/Register.antt =====
-- `registerFuture` as a whole: what it does to the cells of the futures and what it sends.
use activebsp.Base.{
  ℕ, ◌≡◌, sym, ◌∙◌, true, false, none, List, [], ◌++◌, map, append-nil, arith, ◌⊎◌, Result, ok,
  ◌>>=◌, >>=-eq-ok, Bool-cases, Option-cases, inl, inr, ◌==◌, Map, assign, touch, erase,
  if◌then◌else◌,
}
use activebsp.Distribution.VectorDistribution.{VectorDistribution}
use activebsp.Store.DataStore.{Bytes}
use activebsp.Store.Futures.{register_future_data}
use activebsp.Message.{FetchMessage}
use activebsp.Server.State.{Server, Sent}
use activebsp.Server.Fetch.{DvCodec, check_future_required}
use activebsp.Server.Fetch.Sends.{check_future_required-Sends}
use activebsp.Server.Futures.{asked, answer_pending, honour_delete, register_future}
use activebsp.Server.Futures.Cell.{
  cell, fill, IsSettled, data_to, stored, finished, finished_of, cell-finished, sent-finished,
  IsSettled-finished,
}

module _ (codec : DvCodec) (heard : VectorDistribution) (s : Server) (key : ℕ) (bytes : Bytes) where
  -- The call of `checkFutureRequired` and what comes after it.
  fetch_and_finish : Server → Result Server
  fetch_and_finish start = check_future_required codec heard start key >>= λ t.
      ok (honour_delete (answer_pending t key bytes) key)

  fetch_and_finish-finished :
      (start : Server) {s' : Server}
      → start.locked ≡ false
      → fetch_and_finish start ≡ ok s'
      → (out : List Sent) × (left : Map FetchMessage) × (s'
          ≡ honour_delete
              (answer_pending
                (record start { sent = start.sent ++ out; asked_fetch = left })
                key
                bytes)
              key)
        × ((k : ℕ) → left k ≡ (if k == key then none else start.asked_fetch k))
  unfolding fetch_and_finish
  fetch_and_finish-finished start free h =
      let (t, checked, rest) =
        >>=-eq-ok (check_future_required codec heard start key)
          (λ t. ok (honour_delete (answer_pending t key bytes) key)) h in
      let (out, f, g) = check_future_required-Sends codec heard start key free checked in
      (out, t.asked_fetch, rw (← f) (cc), g)

  -- The two ways in which `registerFuture` returns: a released future that nobody waits for is
  -- forgotten, any other is stored, fetched, sent, and removed if it was released.
  pub register_future_ends :
      {s' : Server}
      → s.locked ≡ false
      → register_future codec heard s key bytes ≡ ok s'
      → ((s.pending_future_requests key ≡ none)
          × (asked s key ≡ true)
          × (s' ≡ record s {
            asked_future_delete = erase key (touch false key s.asked_future_delete);
          }))
        ⊎ ((out : List Sent) × (left : Map FetchMessage) × (s' ≡ finished s key bytes out left)
            × ((k : ℕ) → left k ≡ (if k == key then none else s.asked_fetch k)))
  unfolding register_future register_future_data fetch_and_finish
  register_future_ends free h = elim (Option-cases (s.pending_future_requests key)) [
    | inl e ↦ elim (Bool-cases (asked s key)) [
      | inl gone ↦ inl (e, gone, ground (arith, e, gone))
      | inr kept ↦
          let start : Server = record s {
            asked_future_delete = touch false key s.asked_future_delete;
            future_data_store = assign key bytes s.future_data_store;
          } in
          let run : register_future codec heard s key bytes ≡ fetch_and_finish start =
            ground (arith, e, kept) in
          let (out, left, f, g) = fetch_and_finish-finished start free (sym run ∙ h) in
          let u : Server = record start { sent = s.sent ++ out; asked_fetch = left } in
          let same : u ≡ stored s key bytes out left = ground (arith, e) in
          inr (out, left, f ∙ finished_of s key bytes out left same, g)
    ]
    | inr (waiting, e) ↦
        let start : Server = record s {
          future_data_store = assign key bytes s.future_data_store;
        } in
        let run : register_future codec heard s key bytes ≡ fetch_and_finish start =
          ground (arith, e) in
        let (out, left, f, g) = fetch_and_finish-finished start free (sym run ∙ h) in
        let u : Server = record start { sent = s.sent ++ out; asked_fetch = left } in
        let same : u ≡ stored s key bytes out left = ground (arith, e) in
        inr (out, left, f ∙ finished_of s key bytes out left same, g)
  ]

  -- When the mutex is free and the futures are settled, a `registerFuture` that returns is `fill` on
  -- the future's cell and touches no other cell; besides the messages of a fetch that waited for the
  -- future it sends the value, once to each process that waits and in their order; and the futures
  -- are settled again.
  pub register_future_refines :
      {s' : Server}
      → IsSettled s
      → s.locked ≡ false
      → register_future codec heard s key bytes ≡ ok s'
      → ((k : ℕ) → cell s' k ≡ (if k == key then fill bytes (cell s k) else cell s k))
        × ((out : List Sent) × (s'.sent
              ≡ s.sent ++ (out ++ map (data_to bytes) (cell s key).waiting)))
        × IsSettled s'
  register_future_refines v free h = elim (register_future_ends free h) [
    | inl (alone, gone, e) ↦ (
      λ k. rw e (ground (arith, v.at k, v.at key, alone, gone)),
      ([], rw e (ground (arith, alone, append-nil s.sent))),
      record { at = λ k. rw e (ground (arith, v.at k, v.at key, alone, gone)) },
    )
    | inr (out, left, e, f) ↦ rw e (
      cell-finished s key bytes out left,
      (out, sent-finished s key bytes out left),
      IsSettled-finished s key bytes out left v f,
    )
  ]
