-- ===== src/Tests/Message.antt =====
-- Messages at concrete inputs.
use activebsp.Base.{ℕ, ◌≡◌, refl, some, List, [], ◌∷◌, ◌++◌, map, arith, ok, ◌>>=◌}
use activebsp.Message.{Message}
use activebsp.Message.Build.{
  build, fetch_message, get_future_data_message, stop_actor_process_message,
}
use activebsp.Message.Parse.{create_message}
use activebsp.Message.Fits.{Fits}
use activebsp.Message.RoundTrip.{build-create_message}
use activebsp.Server.State.{start}
use activebsp.Server.Route.{run}
use activebsp.Server.Wire.{run_packets}
use activebsp.Server.Wire.Transport.{Outgoing, pack_all, pack_all-run_packets}
use activebsp.Tests.Server.{no_codec, no_dv}

-- Memory that holds the byte 170 everywhere.
abbrev dirty : ℕ → ℕ
dirty at = 170

abbrev fetching : Message
fetching = Message.fetch (record {
  pids = 1 ∷ 2 ∷ [];
  keys = 300 ∷ 8 ∷ [];
  req_future_key = 4;
  res_future_key = 5;
  dv_size = 70000;
})

fetching-Fits : Fits fetching
unfolding Fits
fetching-Fits = (
  omega arith,
  refl,
  (omega arith, (omega arith, tt)),
  (omega arith, (omega arith, tt)),
  omega arith,
  omega arith,
  omega arith,
)

build-create_message_example :
    (build dirty fetching >>= λ buf. create_message (buf ++ (9 ∷ []))) ≡ ok (some fetching)
build-create_message_example = build-create_message dirty (9 ∷ []) fetching fetching-Fits

-- The constructor leaves the keys, and the end of the structure, as memory was.
fetch_bytes :
    fetch_message dirty (1 ∷ []) 4 5 6
    ≡ 14 ∷ 0 ∷ 0 ∷ 0 ∷ 6 ∷ 0 ∷ 0 ∷ 0 ∷ 0 ∷ 0 ∷ 0 ∷ 0 ∷ 4 ∷ 0 ∷ 0 ∷ 0 ∷ 5 ∷ 0 ∷ 0 ∷ 0 ∷ 1 ∷ 0 ∷ 0 ∷ 0
      ∷ 1 ∷ 0 ∷ 0 ∷ 0 ∷ 170 ∷ 170 ∷ 170 ∷ 170 ∷ 170 ∷ 170 ∷ 170 ∷ 170 ∷ []
unfolding fetch_message
fetch_bytes = refl

-- Process 1 asks for a future, and then the process is told to stop.
abbrev outgoing : List Outgoing
outgoing =
    record {
      memory = dirty;
      sends = record { src = 1; message = Message.get_future_data 7; gathered = []; heard = no_dv };
    }
    ∷ record {
      memory = dirty;
      sends = record {
        src = 0;
        message = Message.stop_actor_process;
        gathered = [];
        heard = no_dv;
      };
    }
    ∷ []

pack_all-run_packets_example :
    (pack_all outgoing >>= λ ps. run_packets no_codec (start 2) (1 ∷ 2 ∷ 3 ∷ 4 ∷ 5 ∷ []) ps)
    ≡ run no_codec (start 2) (map (λ o. some o.sends) outgoing)
unfolding Fits build get_future_data_message stop_actor_process_message
pack_all-run_packets_example =
    pack_all-run_packets no_codec (start 2) (1 ∷ 2 ∷ 3 ∷ 4 ∷ 5 ∷ []) outgoing
      ((omega arith, refl), ((tt, refl), tt))
