-- ===== src/Caller.antt =====
-- The side of the caller: ActiveBSP/include/Proxy.hpp, src/Proxy.cpp, include/future/Future.hpp,
-- src/Future.cpp and src/future/LazyFutureDataRetriever.cpp. A call of the communicator that sends
-- is the process and the message; what it receives is an argument.
pub mod Sizes
pub mod Calls
use activebsp.Base.{
  ℕ, ◌==◌, Bool, true, Option, none, some, List, [], ◌∷◌, size_mul, if◌then◌else◌, Result, ok,
  fault, ◌>>=◌, assertion, out_of_bounds, length_error, ◌+◌, length, ltb, int_min, to_int,
}
use activebsp.Store.DataStore.{Bytes}
use activebsp.Message
use activebsp.Message.{Message, CallActorMessage}
use activebsp.Serialization.{ArgType, Arg, Args, serialize, deserialize}

-- `Future`: the bytes that were retrieved, and the process and the key of the retriever.
pub record Future : Type 0 where
  pub held : Option Bytes
  pub pid : ℕ
  pub key : ℕ

-- A future as `active_call` and `prefetch` make it from the response of the process.
unfoldable pub future_of : ℕ → ℕ → Future
future_of dst response = record { held = none; pid = dst; key = response }

-- What `active_call` puts into its message: the key in it is 0.
abbrev pub call_message : Bytes → (ts : List ArgType) → Args ts → CallActorMessage
call_message function_name ts xs = record {
  function_name = function_name;
  args = serialize ts xs;
  future_key = 0;
}

-- The message of `active_call`. Its size, and that of the arguments, are of type `int`: a message of
-- 2 ^ 31 bytes or more gets a negative size, which is refused, or one that its contents do not fit.
unfoldable pub active_call : Bytes → (ts : List ArgType) → Args ts → Result CallActorMessage
active_call function_name ts xs =
    let buf_size = 20 + (length function_name + 1) + length (serialize ts xs) in
    if ltb buf_size int_min
    then ok (call_message function_name ts xs)
    else fault (if ltb (to_int buf_size) int_min then out_of_bounds else length_error)

-- The message of `prefetch`, for `size` elements.
unfoldable pub prefetch_of : Future → ℕ → ℕ → Message
prefetch_of f size elem_size =
    Message.prefetch
      (record { future_pid = f.pid; future_key = f.key; dv_size = size_mul size elem_size })

-- `destroyObject`: what it sends, and the check of the response.
unfoldable pub destroy_object : ℕ → ℕ → Result (ℕ × Message)
destroy_object dst response =
    if response == 0 then ok (dst, Message.stop_actor true) else fault assertion

-- What `get` asks for: nothing once it has the bytes.
unfoldable pub retrieve : Future → Option (ℕ × Message)
retrieve f = elim f.held [ none ↦ some (f.pid, Message.get_future_data f.key) | some bytes ↦ none ]

-- The bytes that `get` reads, with the answer that it receives if it asks.
abbrev pub answer_of : Future → Bytes → Bytes
answer_of f answer = elim f.held [ none ↦ answer | some bytes ↦ bytes ]

-- `get`.
unfoldable pub get : (t : ArgType) → Future → Bytes → Result (Arg t × Future)
get t f answer = deserialize (answer_of f answer) (t ∷ []) >>= λ xs.
    ok (xs.0, record f { held = some (answer_of f answer) })

-- `release`.
unfoldable pub release_data : Future → ℕ × Message
release_data f = (f.pid, Message.release_future f.key)
