-- ===== src/Server/Futures/Trace.antt =====
-- A whole history of requests for futures against the abstract cells.
use activebsp.Base.{
  ℕ, ◌≡◌, refl, sym, ap, ◌∙◌, true, false, none, some, List, [], ◌∷◌, ◌++◌, map, append-nil,
  append_assoc, arith, ◌⊎◌, fun_ext, Result, ok, ◌>>=◌, Bool-cases, Option-cases, inl, inr, ◌==◌,
  if◌then◌else◌, touch, assign, erase,
}
use activebsp.Distribution.VectorDistribution.{VectorDistribution}
use activebsp.Store.DataStore.{Bytes}
use activebsp.Store.Futures.{register_future_data}
use activebsp.Server.State.{Server, Sent}
use activebsp.Server.Fetch.{DvCodec, check_future_required}
use activebsp.Server.Futures.{asked, register_future, handle_get_future_data, handle_release_future}
use activebsp.Server.Futures.Cell.{
  Cell, cell, fill, ask, release, IsSettled, data_to, stored, finished, finished_of, cell-finished,
  sent-finished, asked_fetch-finished, handle_get_future_data-IsSettled,
  handle_release_future-IsSettled, IsSettled-finished, handle_get_future_data_refines,
  handle_release_future_refines,
}

-- The three requests.
pub data FutureOp : Type 0 where
  registers : ℕ → Bytes → FutureOp
  asks : ℕ → ℕ → FutureOp
  releases : ℕ → FutureOp

-- The abstract machine: a cell for each key.
abbrev pub Cells : Type 0
Cells = ℕ → Cell

abbrev pub update : ℕ → (Cell → Cell) → Cells → Cells
update key f cells k = if k == key then f (cells k) else cells k

abbrev pub cells_step : Cells → FutureOp → Cells
cells_step cells (registers key bytes) = update key (fill bytes) cells
cells_step cells (asks src key) = update key (ask src) cells
cells_step cells (releases key) = update key release cells

-- Who gets which value.
abbrev pub replies : Cells → FutureOp → List Sent
replies cells (registers key bytes) = map (data_to bytes) (cells key).waiting
replies cells (asks src key) = elim (cells key).value [
  | none ↦ []
  | some bytes ↦ data_to bytes src ∷ []
]
replies cells (releases key) = []

abbrev pub all_replies : Cells → List FutureOp → List Sent
all_replies cells [] = []
all_replies cells (o ∷ os) = replies cells o ++ all_replies (cells_step cells o) os

-- What the server holds when no fetch waits for a future.
pub record IsQuiet (s : Server) : Type 0 where
  pub settled : IsSettled s
  pub no_fetch : (k : ℕ) → s.asked_fetch k ≡ none

-- The server after a released future, for which nobody waited, was dropped.
abbrev forgotten : Server → ℕ → Server
forgotten s key = record s {
  asked_future_delete = erase key (touch false key s.asked_future_delete);
}

module _ (codec : DvCodec) (heard : VectorDistribution) where
  unfoldable pub future_step : Server → FutureOp → Result Server
  future_step s (registers key bytes) = register_future codec heard s key bytes
  future_step s (asks src key) = ok (handle_get_future_data s src key)
  future_step s (releases key) = ok (handle_release_future s key)

  unfoldable pub future_run : Server → List FutureOp → Result Server
  unfolding future_step
  future_run s [] = ok s
  future_run s (o ∷ os) = future_step s o >>= λ s'. future_run s' os

  -- What one request leaves behind.
  record Stepped (s : Server) (o : FutureOp) : Type 0 where
    after : Server
    runs : future_step s o ≡ ok after
    cells : cell after ≡ cells_step (cell s) o
    sent : after.sent ≡ s.sent ++ replies (cell s) o
    quiet : IsQuiet after

  -- With no fetch kept, `registerFuture` returns, in one of the two ways of `register_future_ends`.
  register_quiet :
      (s : Server) (key : ℕ) (bytes : Bytes)
      → s.asked_fetch key ≡ none
      → ((s.pending_future_requests key ≡ none)
          × (asked s key ≡ true)
          × (register_future codec heard s key bytes ≡ ok (forgotten s key)))
        ⊎ (register_future codec heard s key bytes ≡ ok (finished s key bytes [] s.asked_fetch))
  unfolding register_future register_future_data check_future_required
  register_quiet s key bytes f = elim (Option-cases (s.pending_future_requests key)) [
    | inl e ↦ elim (Bool-cases (asked s key)) [
      | inl gone ↦ inl (e, gone, ground (arith, e, gone))
      | inr kept ↦
          let start : Server = record s {
            asked_future_delete = touch false key s.asked_future_delete;
            future_data_store = assign key bytes s.future_data_store;
          } in
          let same : start ≡ stored s key bytes [] s.asked_fetch =
            ground (arith, e, append-nil s.sent) in
          inr (rw (← finished_of s key bytes [] s.asked_fetch same) (ground (arith, e, kept, f)))
    ]
    | inr (waiting, e) ↦
        let start : Server = record s {
          future_data_store = assign key bytes s.future_data_store;
        } in
        let same : start ≡ stored s key bytes [] s.asked_fetch =
          ground (arith, e, append-nil s.sent) in
        inr (rw (← finished_of s key bytes [] s.asked_fetch same) (ground (arith, e, f)))
  ]

  register-Stepped :
      (s : Server) (key : ℕ) (bytes : Bytes) → IsQuiet s → Stepped s (registers key bytes)
  unfolding future_step
  register-Stepped s key bytes q = elim (register_quiet s key bytes (q.no_fetch key)) [
    | inl (alone, gone, run) ↦ record {
      after = forgotten s key;
      runs = run;
      cells = fun_ext (λ k. ground (arith, q.settled.at k, q.settled.at key, alone, gone));
      sent = ground (arith, alone, append-nil s.sent);
      quiet = record {
        settled = record {
          at = λ k. ground (arith, q.settled.at k, q.settled.at key, alone, gone);
        };
        no_fetch = q.no_fetch;
      };
    }
    | inr run ↦ record {
      after = finished s key bytes [] s.asked_fetch;
      runs = run;
      cells = fun_ext (cell-finished s key bytes [] s.asked_fetch);
      sent = sent-finished s key bytes [] s.asked_fetch;
      quiet = record {
        settled =
            IsSettled-finished s key bytes [] s.asked_fetch q.settled
              (λ k. ground (arith, q.no_fetch k));
        no_fetch = λ k. asked_fetch-finished s key bytes [] s.asked_fetch k ∙ q.no_fetch k;
      };
    }
  ]

  ask-Stepped : (s : Server) (src key : ℕ) → IsQuiet s → Stepped s (asks src key)
  unfolding future_step handle_get_future_data
  ask-Stepped s src key q =
      let (cells, sent) = handle_get_future_data_refines s src key in
      record {
        after = handle_get_future_data s src key;
        runs = refl;
        cells = fun_ext cells;
        sent = sent;
        quiet = record {
          settled = handle_get_future_data-IsSettled s src key q.settled;
          no_fetch = λ k. ground (arith, q.no_fetch k);
        };
      }

  release-Stepped : (s : Server) (key : ℕ) → IsQuiet s → Stepped s (releases key)
  unfolding future_step handle_release_future
  release-Stepped s key q =
      let (cells, sent) = handle_release_future_refines s key in
      record {
        after = handle_release_future s key;
        runs = refl;
        cells = fun_ext cells;
        sent = sent ∙ sym (append-nil s.sent);
        quiet = record {
          settled = handle_release_future-IsSettled s key q.settled;
          no_fetch = λ k. ground (arith, q.no_fetch k);
        };
      }

  step-Stepped : (s : Server) (o : FutureOp) → IsQuiet s → Stepped s o
  step-Stepped s (registers key bytes) q = register-Stepped s key bytes q
  step-Stepped s (asks src key) q = ask-Stepped s src key q
  step-Stepped s (releases key) q = release-Stepped s key q

  -- From a server that keeps no fetch request and has its futures settled, every history of
  -- registrations, questions and releases runs to its end, sends exactly the replies of the abstract
  -- cells in their order, and ends settled and with no fetch request.
  pub future_run_refines :
      (s : Server) (os : List FutureOp)
      → IsQuiet s
      → (s' : Server) × (future_run s os ≡ ok s')
        × (s'.sent ≡ s.sent ++ all_replies (cell s) os)
        × IsQuiet s'
  unfolding future_run
  future_run_refines s [] q = (s, refl, sym (append-nil s.sent), q)
  future_run_refines s (o ∷ os) q =
      let first = step-Stepped s o q in
      let (t, rest, sent, quiet) = future_run_refines first.after os first.quiet in
      (
        t,
        rw first.runs rest,
        sent
            ∙ (ap (λ c. first.after.sent ++ all_replies c os) first.cells
                ∙ (ap (λ m. m ++ all_replies (cells_step (cell s) o) os) first.sent
                    ∙ append_assoc s.sent (replies (cell s) o)
                        (all_replies (cells_step (cell s) o) os))),
        quiet,
      )
