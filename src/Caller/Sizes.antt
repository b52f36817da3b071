-- ===== src/Caller/Sizes.antt =====
-- The sizes of the messages of a call and of its result.
use activebsp.Base.{
  ℕ, ◌+◌, ◌<◌, ◌≡◌, ap, arith, [], ◌∷◌, ◌++◌, true, length, length-append, ltb, int_min, ok, ◌>>=◌,
}
use activebsp.Store.DataStore.{Bytes}
use activebsp.Message.{Message, CallActorMessage}
use activebsp.Message.Fields.{int_sized_lem, int_sized-string}
use activebsp.Message.Build.{build, call_actor_message, register_future_message}

pub call_actor-short :
    (memory : ℕ → ℕ) (m : CallActorMessage)
    → 20 + (length m.function_name + 1) + length m.args < int_min
    → (build memory (Message.call_actor m) >>= λ bytes. ok (ltb (length bytes) int_min)) ≡ ok true
unfolding build call_actor_message
call_actor-short memory m small =
    let name = m.function_name ++ (0 ∷ []) in
    let name_size = length-append m.function_name (0 ∷ []) in
    let size = length-append name m.args in
    rw
      (
        int_sized-string m.function_name (omega (arith, small)),
        int_sized_lem m.args (omega (arith, small)),
      )
      (ap ok (ground (arith, small, size, name_size)))

pub register_future-short :
    (memory : ℕ → ℕ) (key : ℕ) (bytes : Bytes)
    → 16 + length bytes < int_min
    → (build memory (Message.register_future key bytes) >>= λ b. ok (ltb (length b) int_min))
      ≡ ok true
unfolding build register_future_message
register_future-short memory key bytes small =
    rw (int_sized_lem bytes (omega (arith, small))) (ap ok (ground (arith, small)))
