-- ===== src/Serialization/Calls.antt =====
-- The calls of ActiveBSP/include/serialization/serialization.hpp and include/decl_actor.h: a function
-- of the actor that takes its arguments from bytes and gives its result as bytes.
use activebsp.Base.{◌<◌, ◌≡◌, List, [], ◌∷◌, ◌++◌, length, size_mod, Result, ok, ◌>>=◌}
use activebsp.Store.DataStore.{Bytes}
use activebsp.Serialization.{ArgType, Arg, Args, serialize, deserialize}
use activebsp.Serialization.RoundTrip.{AreValues, all_bytes, deserialize-serialize}

-- `deserialize_call`.
unfoldable pub deserialize_call :
    {R : Type 0} → (ts : List ArgType) → (Args ts → R) → Bytes → Result R
deserialize_call ts f buf = deserialize buf ts >>= λ xs. ok (f xs)

-- The types of a function and the function on an object of type `A`, which it may change.
module _ {A : Type 0} (ts : List ArgType) (result : ArgType)
    (f : Args ts → A → Arg result × A) where
  -- `actor_function_handler` through `deserialize_call_serialize`.
  unfoldable pub actor_function_handler : Bytes → A → Result (Bytes × A)
  unfolding deserialize_call
  actor_function_handler buf obj = deserialize_call ts (λ xs. f xs obj) buf >>= λ done.
      ok (serialize (result ∷ []) (done.0, tt), done.1)

  -- A function called on serialized arguments gives the serialized result of the function, and the
  -- object as the function leaves it, if the arguments take less than 2 ^ 64 bytes together.
  pub actor_function_handler-serialize :
      (xs : Args ts) (rest : Bytes) (obj : A)
      → AreValues ts xs
      → length (all_bytes ts xs) < size_mod
      → actor_function_handler (serialize ts xs ++ rest) obj
        ≡ ok (serialize (result ∷ []) ((f xs obj).0, tt), (f xs obj).1)
  unfolding actor_function_handler deserialize_call
  actor_function_handler-serialize xs rest obj h fits = rw (deserialize-serialize ts xs rest h fits)
