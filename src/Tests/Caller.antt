-- ===== src/Tests/Caller.antt =====
-- Serialized values, and a remote call, at concrete inputs.
use activebsp.Base.{
  ℕ, ◌+◌, ◌≡◌, refl, true, Option, none, some, List, [], ◌∷◌, ◌++◌, arith, Result, ok,
}
use activebsp.Store.DataStore.{Bytes}
use activebsp.Message.{CallActorMessage, get_future_data, call_actor, register_future}
use activebsp.Server.Wire.Transport.{conveyed}
use activebsp.Message.Fields.{read_bytes}
use activebsp.Serialization.{
  ArgType, Arg, Args, pod, vector, object, elements, serialize, deserialize,
}
use activebsp.Serialization.RoundTrip.{AreValues, all_bytes, deserialize-serialize}
use activebsp.Serialization.Calls.{actor_function_handler}
use activebsp.Server.State.{Server, start, response_code, future_data}
use activebsp.Server.Route.{handle_call_actor}
use activebsp.Server.Futures.Trace.{IsQuiet, future_run}
use activebsp.Worker.{serve_request}
use activebsp.Caller.{future_of, active_call, retrieve, get}
use activebsp.Caller.Calls.{get-get, history, queued_call, served, call_answered}
use activebsp.Tests.Server.{no_codec, no_dv}
use activebsp.Tests.Worker.{idle, fresh}

-- An object of two bytes and a vector of three elements of one byte.
abbrev two_types : List ArgType
two_types = pod 2 ∷ vector 1 ∷ []

abbrev two_args : Args two_types
two_args = (object (1 ∷ 2 ∷ []), (elements ((7 ∷ []) ∷ (8 ∷ []) ∷ (9 ∷ []) ∷ []), tt))

two_args-AreValues : AreValues two_types two_args
unfolding AreValues
two_args-AreValues = (refl, ((omega arith, (refl, (refl, (refl, tt)))), tt))

serialized : serialize two_types two_args ≡ 1 ∷ 2 ∷ 3 ∷ 0 ∷ 0 ∷ 0 ∷ 0 ∷ 0 ∷ 0 ∷ 0 ∷ 7 ∷ 8 ∷ 9 ∷ []
unfolding serialize
serialized = refl

deserialize-serialize_example :
    deserialize (serialize two_types two_args ++ (5 ∷ [])) two_types ≡ ok two_args
unfolding all_bytes
deserialize-serialize_example =
    deserialize-serialize two_types two_args (5 ∷ []) two_args-AreValues (omega arith)

-- A function that gives the object and counts its calls in it.
abbrev counts : Args two_types → ℕ → Arg (pod 1) × ℕ
counts xs count = (object (count ∷ []), count + 1)

abbrev only_counts : Bytes → Option (ℕ → Bytes → ℕ → Result (Bytes × ℕ))
only_counts name = some (λ id. actor_function_handler two_types (pod 1) counts)

idle-IsQuiet : IsQuiet idle
unfolding start
idle-IsQuiet = record { settled = record { at = λ k. tt }; no_fetch = λ k. refl }

-- The bytes of the first result.
abbrev first_result : Bytes
first_result = serialize (pod 1 ∷ []) (object (0 ∷ []), tt)

abbrev name : Bytes
name = 99 ∷ []

-- Memory that was not used before.
abbrev nothing : ℕ → ℕ
nothing at = 0

call_answered_example :
    (msg : CallActorMessage) × (s1 s2 : Server) × (active_call name two_types two_args ≡ ok msg)
    × (conveyed nothing (3 ∷ []) (call_actor msg) ≡ ok (some (call_actor msg)))
    × (handle_call_actor idle 5 msg ≡ ok s1)
    × (s1.sent ≡ [] ++ (response_code 5 0 ∷ []))
    × (s1.worker ≡ some (queued_call 1 5 name two_types (pod 1) counts 0 two_args ∷ []))
    × (serve_request only_counts 1 fresh (queued_call 1 5 name two_types (pod 1) counts 0 two_args)
        ≡ ok (served 1 5 name two_types (pod 1) counts fresh 0 two_args))
    × (conveyed nothing (3 ∷ []) (register_future 0 first_result)
        ≡ ok (some (register_future 0 first_result)))
    × (future_run no_codec no_dv s1 (history true 5 0 first_result) ≡ ok s2)
    × (s2.sent ≡ s1.sent ++ (future_data 5 first_result ∷ []))
    × (retrieve (future_of 1 0) ≡ some (1, get_future_data 0))
    × (get (pod 1) (future_of 1 0) first_result
        ≡ ok (object (0 ∷ []), record { held = some first_result; pid = 1; key = 0 }))
unfolding start all_bytes AreValues
call_answered_example =
    call_answered 1 5 name two_types (pod 1) counts no_codec no_dv only_counts idle fresh two_args
      true nothing (3 ∷ []) refl idle-IsQuiet refl (omega arith) refl (omega arith, tt)
      two_args-AreValues (omega arith) refl (omega arith)

read_once :
    get (pod 1) (future_of 1 0) (6 ∷ [])
    ≡ ok (object (6 ∷ []), record { held = some (6 ∷ []); pid = 1; key = 0 })
unfolding get future_of deserialize read_bytes
read_once = refl

get-get_example :
    (retrieve (record { held = some (6 ∷ []); pid = 1; key = 0 }) ≡ none)
    × (get (pod 1) (record { held = some (6 ∷ []); pid = 1; key = 0 }) (7 ∷ [])
        ≡ ok (object (6 ∷ []), record { held = some (6 ∷ []); pid = 1; key = 0 }))
get-get_example = get-get (pod 1) (future_of 1 0) (6 ∷ []) (7 ∷ []) read_once
