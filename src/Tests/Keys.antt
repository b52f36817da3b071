-- ===== src/Tests/Keys.antt =====
-- The keys of two calls, at a concrete history.
use activebsp.Base.{ℕ, ◌≡◌, ◌≢◌, refl, [], ◌∷◌, ◌++◌, arith, some}
use activebsp.Store.Futures.{take_key}
use activebsp.Message.{CallActorMessage, create_actor}
use activebsp.Server.State.{Server, Request, start, response_code}
use activebsp.Server.Fetch.{DvCodec}
use activebsp.Server.Route.{
  Incoming, handle, route_message, handle_create_actor, handle_call_actor, post,
}
use activebsp.Server.Safety.History.{Reaches, here, next, handles, takes_key}
use activebsp.Server.Safety.Distinct.{calls_get_distinct_keys}

abbrev no_codec : DvCodec
no_codec = record { serialize = λ dv. []; deserialize = λ bytes. record { nelem = 0; parts = [] } }

abbrev a_call : CallActorMessage
a_call = record { function_name = 102 ∷ []; args = 7 ∷ []; future_key = 0 }

abbrev creation : Incoming
creation = record {
  src = 4;
  message = create_actor (65 ∷ []) (1 ∷ []);
  gathered = [];
  heard = record { nelem = 0; parts = [] };
}

abbrev created : Server
created = record (start 1) { pids = 1 ∷ []; worker = some []; sent = response_code 4 0 ∷ [] }

abbrev request : ℕ → ℕ → Request
request src key = record { source = src; key = key; call = some a_call }

abbrev called : Server
called = record created {
  next_key = 1;
  worker = some (request 5 0 ∷ []);
  sent = response_code 4 0 ∷ response_code 5 0 ∷ [];
}

abbrev key_taken : Server
key_taken = record called { next_key = 2 }

abbrev called_again : Server
called_again = record key_taken {
  next_key = 3;
  worker = some (request 5 0 ∷ request 6 2 ∷ []);
  sent = response_code 4 0 ∷ response_code 5 0 ∷ response_code 6 2 ∷ [];
}

one_creation : Reaches no_codec (start 1) created
unfolding start handle route_message handle_create_actor
one_creation = next here (handles creation tt refl)

abbrev one_key : Reaches no_codec called key_taken
unfolding start take_key
one_key = next here takes_key

calls_get_distinct_keys_example :
    (key key' : ℕ) × (called.sent ≡ created.sent ++ (response_code 5 key ∷ []))
    × (called_again.sent ≡ key_taken.sent ++ (response_code 6 key' ∷ []))
    × (key ≢ key')
unfolding start handle_call_actor post take_key
calls_get_distinct_keys_example =
    calls_get_distinct_keys no_codec 1 {s = created} {t = called} {u = key_taken} {w = called_again}
      one_creation 5 a_call refl one_key (omega arith) 6 a_call refl
