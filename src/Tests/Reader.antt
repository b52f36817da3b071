-- ===== src/Tests/Reader.antt =====
-- A reader of another process's part at a concrete history.
use activebsp.Base.{false, ◌≡◌, refl, ℕ, List, [], ◌∷◌, arith, ok, assign, empty_map, ◌⊎◌}
use activebsp.Pieces.{Chunk}
use activebsp.Message.{store_result}
use activebsp.Store.DataStore.{
  Bytes, data_store, store_part_message, get_part_data, message_store, find_data_buf,
}
use activebsp.Store.DataStore.Invariant.{data_store-IsValid}
use activebsp.Server.State.{Server, start}
use activebsp.Server.Fetch.{DvCodec}
use activebsp.Server.Results.{handle_store_result, check_dv_part_required}
use activebsp.Server.Route.{Incoming, handle, route_message}
use activebsp.Server.Safety.{IsSafe}
use activebsp.Server.Reader.{
  entering, finished, Asked, read_found, read_round, broadcasts, Reaches, here, next, handles,
  reads,
}
use activebsp.Server.Reader.Wakeup.{reader_returns}

abbrev plain : DvCodec
plain = record { serialize = λ dv. []; deserialize = λ bytes. record { nelem = 0; parts = [] } }

-- A part of three bytes arrives under key 9, after the reader that asks for two of them.
abbrev arrival : Incoming
arrival = record {
  src = 4;
  message = store_result 9 (5 ∷ 6 ∷ 7 ∷ []);
  gathered = [];
  heard = record { nelem = 0; parts = [] };
}

abbrev asked : Asked
asked = record { key = 9; dst = 100; offset = 1; size = 2 }

abbrev arrived : Server
arrived = record (start 1) {
  parts = record {
    result_vector_store = empty_map;
    result_msg_store =
        assign 9 (record { resid = 9; data_size = 3; payload = 5 ∷ 6 ∷ 7 ∷ [] }) empty_map;
    dv_parts =
        assign 9 (record { key = 9; size = 3; location = message_store; remaining_bytes = 0 })
          empty_map;
  };
}

read_two :
    read_found asked (5 ∷ 6 ∷ 7 ∷ []) 3
    ≡ finished 0 (record { offset = 100; bytes = 6 ∷ 7 ∷ [] } ∷ [])
unfolding read_found
read_two = refl

read_three : read_found (record asked { size = 3 }) (5 ∷ 6 ∷ 7 ∷ []) 3 ≡ finished 4294967295 []
unfolding read_found
read_three = refl

fresh-IsSafe : IsSafe (start 1)
unfolding start
fresh-IsSafe = record { store = data_store-IsValid; free = refl }

waits_then_woken : Reaches plain asked (start 1) arrived entering
unfolding start data_store handle route_message handle_store_result store_part_message
    check_dv_part_required read_round get_part_data broadcasts
waits_then_woken =
    next (next here (reads refl refl refl)) (handles arrival tt (omega arith) (omega arith) refl)

reader_returns_example :
    (buf : Bytes) × (find_data_buf arrived.parts 9 ≡ ok buf)
    × (((code : ℕ) × (chunks : List Chunk) × (entering ≡ finished code chunks))
        ⊎ ((entering ≡ entering)
            × (arrived.locked ≡ false)
            × (read_round asked arrived.parts ≡ ok (read_found asked buf 3))))
unfolding start
reader_returns_example =
    reader_returns plain asked waits_then_woken fresh-IsSafe refl refl (omega arith)
