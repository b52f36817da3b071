-- ===== src/Tests/Server.antt =====
-- The server at concrete inputs.
use activebsp.Base.{◌≡◌, refl, List, [], ◌∷◌, ◌++◌, ok}
use activebsp.Distribution.VectorDistribution.{VectorDistribution}
use activebsp.Server.State.{Server, start, future_data}
use activebsp.Server.Fetch.{DvCodec}
use activebsp.Server.Futures.Cell.{cell}
use activebsp.Server.Futures.Trace.{
  FutureOp, registers, asks, releases, future_run, all_replies, IsQuiet, future_run_refines,
}

-- A codec that keeps nothing, which the runs below do not use.
abbrev pub no_codec : DvCodec
no_codec = record { serialize = λ dv. []; deserialize = λ bytes. record { nelem = 0; parts = [] } }

abbrev pub no_dv : VectorDistribution
no_dv = record { nelem = 0; parts = [] }

start-IsQuiet : IsQuiet (start 2)
unfolding start
start-IsQuiet = record { settled = record { at = λ k. tt }; no_fetch = λ k. refl }

-- Process 5 asks before the value is there, process 6 after; the future is released in between.
abbrev history : List FutureOp
history = asks 5 7 ∷ registers 7 (1 ∷ 2 ∷ []) ∷ asks 6 7 ∷ releases 7 ∷ asks 8 7 ∷ []

future_run_refines_example :
    (s : Server) × (future_run no_codec no_dv (start 2) history ≡ ok s)
    × (s.sent ≡ [] ++ all_replies (cell (start 2)) history)
    × IsQuiet s
unfolding start
future_run_refines_example = future_run_refines no_codec no_dv (start 2) history start-IsQuiet

history_replies :
    all_replies (cell (start 2)) history
    ≡ future_data 5 (1 ∷ 2 ∷ []) ∷ future_data 6 (1 ∷ 2 ∷ []) ∷ []
unfolding start
history_replies = refl
