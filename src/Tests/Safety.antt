-- ===== src/Tests/Safety.antt =====
-- Histories of a server at concrete inputs.
use activebsp.Base.{refl, [], ◌∷◌, assign, empty_map}
use activebsp.Message.{store_result}
use activebsp.Store.DataStore.{data_store, store_part_message, message_store}
use activebsp.Store.DataStore.Invariant.{data_store-IsValid}
use activebsp.Server.State.{Server, start}
use activebsp.Server.Fetch.{DvCodec}
use activebsp.Server.Results.{handle_store_result, check_dv_part_required}
use activebsp.Server.Route.{Incoming, handle, route_message}
use activebsp.Server.Safety.{IsSafe}
use activebsp.Server.Safety.History.{Reaches, here, next, handles, Reaches-IsSafe}

abbrev plain : DvCodec
plain = record { serialize = λ dv. []; deserialize = λ bytes. record { nelem = 0; parts = [] } }

-- A part of three bytes arrives under key 9.
abbrev arrival : Incoming
arrival = record {
  src = 4;
  message = store_result 9 (5 ∷ 6 ∷ 7 ∷ []);
  gathered = [];
  heard = record { nelem = 0; parts = [] };
}

abbrev arrived : Server
arrived = record (start 1) {
  parts = record {
    result_vector_store = empty_map;
    result_msg_store =
        assign 9 (record { resid = 9; data_size = 3; payload = 5 ∷ 6 ∷ 7 ∷ [] }) empty_map;
    dv_parts =
        assign 9 (record { key = 9; size = 3; location = message_store; remaining_bytes = 0 })
          empty_map;
  };
}

fresh-IsSafe : IsSafe (start 1)
unfolding start
fresh-IsSafe = record { store = data_store-IsValid; free = refl }

one_arrival : Reaches plain (start 1) arrived
unfolding start data_store handle route_message handle_store_result store_part_message
    check_dv_part_required
one_arrival = next here (handles arrival tt refl)

Reaches-IsSafe_example : IsSafe arrived
Reaches-IsSafe_example = Reaches-IsSafe plain {s = start 1} {t = arrived} one_arrival fresh-IsSafe
