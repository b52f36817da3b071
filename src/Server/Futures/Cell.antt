-- ===== src/Server/Futures/Cell.antt =====
-- The handlers for futures against their abstract contract: a future is a cell that is filled once,
-- answers everyone who asks, and can be released before or after it is filled.
use activebsp.Base.{
  ℕ, ◌≡◌, sym, ap, ◌∙◌, Bool, true, false, Option, none, some, List, [], ◌∷◌, ◌++◌, map,
  append_assoc, append-nil, arith, Option-cases, inl, inr, ◌==◌, value_or, has_key, Map, assign,
  touch, if◌then◌else◌,
}
use activebsp.Store.DataStore.{Bytes}
use activebsp.Store.Futures.{find_future_data, remove_future_data}
use activebsp.Message.{FetchMessage}
use activebsp.Server.State.{Server, Sent, future_data, send}
use activebsp.Server.Futures.{
  send_future_data, answer_pending, honour_delete, handle_get_future_data, handle_release_future,
}

-- A future: its value once it is there, who waits for it, and whether it was released before.
pub record Cell : Type 0 where
  pub value : Option Bytes
  pub waiting : List ℕ
  pub released : Bool

-- The value goes to all who wait, and stays unless the future was released.
abbrev pub fill : Bytes → Cell → Cell
fill bytes c = record {
  value = if c.released then none else some bytes;
  waiting = [];
  released = false;
}

abbrev pub ask : ℕ → Cell → Cell
ask src c = elim c.value [ none ↦ record c { waiting = c.waiting ++ (src ∷ []) } | some bytes ↦ c ]

abbrev pub release : Cell → Cell
release c = elim c.value [
  | none ↦ record c { released = true }
  | some bytes ↦ record c { value = none }
]

-- What the server knows of a future.
abbrev pub cell : Server → ℕ → Cell
cell s key = record {
  value = s.future_data_store key;
  waiting = value_or [] (s.pending_future_requests key);
  released = value_or false (s.asked_future_delete key);
}

-- A future that is there has nobody waiting, no release outstanding and no fetch kept for it.
abbrev pub SettledAt : Option Bytes → Option (List ℕ) → Option Bool → Option FetchMessage → Type 0
SettledAt none waiting released fetch = Unit {0}
SettledAt (some bytes) waiting released fetch =
    (waiting ≡ none) × (value_or false released ≡ false) × (fetch ≡ none)

pub record IsSettled (s : Server) : Type 0 where
  pub at :
      (k : ℕ)
      → SettledAt
          (s.future_data_store k)
          (s.pending_future_requests k)
          (s.asked_future_delete k)
          (s.asked_fetch k)

abbrev pub data_to : Bytes → ℕ → Sent
data_to bytes pid = future_data pid bytes

send_future_data_lem :
    (s : Server) (pids : List ℕ) (bytes : Bytes)
    → send_future_data s pids bytes ≡ record s { sent = s.sent ++ map (data_to bytes) pids }
send_future_data_lem s [] bytes = λ i. record s { sent = sym (append-nil s.sent) i }
send_future_data_lem s (pid ∷ pids) bytes =
    send_future_data_lem (send s (future_data pid bytes)) pids bytes ∙ (λ i. record s {
      sent = append_assoc s.sent (future_data pid bytes ∷ []) (map (data_to bytes) pids) i;
    })

-- Asking is `ask` on the future's cell and touches no other; it is answered at once if the value is
-- there, and with nothing else.
pub handle_get_future_data_refines :
    (s : Server) (src key : ℕ)
    → ((k : ℕ)
        → cell (handle_get_future_data s src key) k
          ≡ (if k == key then ask src (cell s k) else cell s k))
      × ((handle_get_future_data s src key).sent
          ≡ s.sent ++ elim (cell s key).value [ none ↦ [] | some bytes ↦ data_to bytes src ∷ [] ])
unfolding handle_get_future_data find_future_data
handle_get_future_data_refines s src key = (λ k. ground arith, ground (arith, append-nil s.sent))

-- Releasing is `release` on the future's cell, touches no other and sends nothing.
pub handle_release_future_refines :
    (s : Server) (key : ℕ)
    → ((k : ℕ)
        → cell (handle_release_future s key) k
          ≡ (if k == key then release (cell s k) else cell s k))
      × ((handle_release_future s key).sent ≡ s.sent)
unfolding handle_release_future find_future_data remove_future_data
handle_release_future_refines s key = (λ k. ground arith, ground arith)

pub handle_get_future_data-IsSettled :
    (s : Server) (src key : ℕ) → IsSettled s → IsSettled (handle_get_future_data s src key)
unfolding handle_get_future_data find_future_data
handle_get_future_data-IsSettled s src key v = record { at = λ k. ground (arith, v.at k, v.at key) }

pub handle_release_future-IsSettled :
    (s : Server) (key : ℕ) → IsSettled s → IsSettled (handle_release_future s key)
unfolding handle_release_future find_future_data remove_future_data
handle_release_future-IsSettled s key v = record { at = λ k. ground (arith, v.at k, v.at key) }

-- The server when `registerFuture` has written the value to the store and `checkFutureRequired` has
-- sent `out` and left the fetch requests `left`.
abbrev pub stored : Server → ℕ → Bytes → List Sent → Map FetchMessage → Server
stored s key bytes out left = record s {
  sent = s.sent ++ out;
  asked_fetch = left;
  asked_future_delete =
      if has_key s.pending_future_requests key
      then s.asked_future_delete
      else touch false key s.asked_future_delete;
  future_data_store = assign key bytes s.future_data_store;
}

module _ (s : Server) (key : ℕ) (bytes : Bytes) (out : List Sent) (left : Map FetchMessage) where
  -- The rest of `registerFuture`.
  unfoldable pub finished : Server
  unfolding answer_pending honour_delete remove_future_data
  finished = honour_delete (answer_pending (stored s key bytes out left) key bytes) key

  pub finished_of :
      {u : Server}
      → u ≡ stored s key bytes out left
      → honour_delete (answer_pending u key bytes) key ≡ finished
  unfolding finished
  finished_of e = ap (λ t. honour_delete (answer_pending t key bytes) key) e

  pub cell-finished :
      (k : ℕ) → cell finished k ≡ (if k == key then fill bytes (cell s k) else cell s k)
  unfolding finished
  cell-finished k = elim (Option-cases (s.pending_future_requests key)) [
    | inl e ↦ ground (arith, e)
    | inr (waiting, e) ↦
        ground (arith, e, send_future_data_lem (stored s key bytes out left) waiting bytes)
  ]

  pub sent-finished : finished.sent ≡ s.sent ++ (out ++ map (data_to bytes) (cell s key).waiting)
  unfolding finished
  sent-finished = elim (Option-cases (s.pending_future_requests key)) [
    | inl e ↦ ground (arith, e, append-nil out)
    | inr (waiting, e) ↦ ground (
      arith,
      e,
      send_future_data_lem (stored s key bytes out left) waiting bytes,
      append_assoc s.sent out (map (data_to bytes) waiting),
    )
  ]

  pub parts-finished : (finished.parts ≡ s.parts) × (finished.locked ≡ s.locked)
  unfolding finished
  parts-finished = elim (Option-cases (s.pending_future_requests key)) [
    | inl e ↦ ground (arith, e)
    | inr (waiting, e) ↦
        ground (arith, e, send_future_data_lem (stored s key bytes out left) waiting bytes)
  ]

  pub next_key-finished : finished.next_key ≡ s.next_key
  unfolding finished
  next_key-finished = elim (Option-cases (s.pending_future_requests key)) [
    | inl e ↦ ground (arith, e)
    | inr (waiting, e) ↦
        ground (arith, e, send_future_data_lem (stored s key bytes out left) waiting bytes)
  ]

  pub IsSettled-finished :
      IsSettled s
      → ((k : ℕ) → left k ≡ (if k == key then none else s.asked_fetch k))
      → IsSettled finished
  unfolding finished
  IsSettled-finished v f = record {
    at = λ k. elim (Option-cases (s.pending_future_requests key)) [
      | inl e ↦ ground (arith, e, v.at k, v.at key, f k)
      | inr (waiting, e) ↦ ground (
        arith,
        e,
        v.at k,
        v.at key,
        f k,
        send_future_data_lem (stored s key bytes out left) waiting bytes,
      )
    ];
  }

  pub asked_fetch-finished : (k : ℕ) → finished.asked_fetch k ≡ left k
  unfolding finished
  asked_fetch-finished k = elim (Option-cases (s.pending_future_requests key)) [
    | inl e ↦ ground (arith, e)
    | inr (waiting, e) ↦
        ground (arith, e, send_future_data_lem (stored s key bytes out left) waiting bytes)
  ]
