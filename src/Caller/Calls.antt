-- ===== src/Caller/Calls.antt =====
-- A call from the caller's side through the server and the worker and back.
use activebsp.Base.{
  All, ltb, ℕ, ◌+◌, ◌<◌, ◌≡◌, refl, subst, ok-injective, sym, ap, ◌∙◌, Bool, true, false, Option,
  none, some, List, [], ◌∷◌, ◌++◌, length, int_min, size_mod, Result, ok, ◌>>=◌, >>=-eq-ok,
  append-nil, arith,
}
use activebsp.Distribution.VectorDistribution.{VectorDistribution}
use activebsp.Store.DataStore.{Bytes}
use activebsp.Message.{register_future, get_future_data, call_actor, CallActorMessage}
use activebsp.Message.Fields.{IsChar}
use activebsp.Message.Fits.{Fits}
use activebsp.Server.Wire.Transport.{conveyed, conveyed_lem}
use activebsp.Caller.Sizes.{call_actor-short, register_future-short}
use activebsp.Serialization.{ArgType, Arg, Args, serialize, deserialize}
use activebsp.Serialization.RoundTrip.{
  AreValues, IsValue, all_bytes, serialize-all_bytes, deserialize-serialize,
}
use activebsp.Serialization.Calls.{actor_function_handler, actor_function_handler-serialize}
use activebsp.Server.State.{Server, Request, actor_message, response_code, future_data}
use activebsp.Server.Fetch.{DvCodec}
use activebsp.Server.Route.{handle_call_actor}
use activebsp.Server.Futures.Cell.{Cell, cell}
use activebsp.Server.Futures.Trace.{
  IsQuiet, FutureOp, registers, asks, Cells, future_run, all_replies, future_run_refines,
}
use activebsp.Worker.{Worker, call_function, report_result, serve_request}
use activebsp.Worker.Order.{called, handle_call_actor_lem}
use activebsp.Caller.{Future, future_of, call_message, active_call, retrieve, get, answer_of}

-- A `get` that returned has kept the bytes: another one asks nobody, and gives the same value.
pub get-get :
    (t : ArgType) (f : Future) (answer other : Bytes) {x : Arg t} {f' : Future}
    → get t f answer ≡ ok (x, f')
    → (retrieve f' ≡ none) × (get t f' other ≡ ok (x, f'))
unfolding get retrieve
get-get t f answer other h =
    let (xs, read, e) =
      >>=-eq-ok (deserialize (answer_of f answer) (t ∷ []))
        (λ xs. ok (xs.0, record f { held = some (answer_of f answer) })) h in
    subst (λ r. (retrieve r.1 ≡ none) × (get t r.1 other ≡ ok r)) (ok-injective e)
      (refl, ap (λ r. r >>= λ ys. ok (ys.0, record f { held = some (answer_of f answer) })) read)

-- A future that nobody has used.
abbrev pub unused : Cell
unused = record { value = none; waiting = []; released = false }

-- The value of a future registered, and asked for by one process before or after that.
abbrev pub history : Bool → ℕ → ℕ → Bytes → List FutureOp
history true src key bytes = asks src key ∷ registers key bytes ∷ []
history false src key bytes = registers key bytes ∷ asks src key ∷ []

replies-history :
    (cells : Cells) (early : Bool) (src key : ℕ) (bytes : Bytes)
    → cells key ≡ unused
    → all_replies cells (history early src key bytes) ≡ future_data src bytes ∷ []
replies-history cells true src key bytes e = ground (arith, e)
replies-history cells false src key bytes e = ground (arith, e)

call_function_lem :
    {A : Type 0} (functions : Bytes → Option (ℕ → Bytes → A → Result (Bytes × A)))
    (msg : CallActorMessage) (obj : A) {g : ℕ → Bytes → A → Result (Bytes × A)}
    → functions msg.function_name ≡ some g
    → call_function functions msg obj ≡ g msg.future_key msg.args obj
unfolding call_function
call_function_lem functions msg obj e = rw (e, call_function)

-- One function of an actor, with its name.
module _ {A : Type 0} (pid src : ℕ) (name : Bytes) (ts : List ArgType) (result : ArgType)
    (f : Args ts → A → Arg result × A) where
  -- The bytes of the result on an object.
  abbrev pub result_bytes : Args ts → A → Bytes
  result_bytes xs obj = serialize (result ∷ []) ((f xs obj).0, tt)

  -- The call as the server queues it.
  abbrev pub queued_call : ℕ → Args ts → Request
  queued_call key xs = record { source = src; key = key; call = some (call_message name ts xs) }

  -- The worker after it served the call.
  abbrev pub served : Worker A → ℕ → Args ts → Worker A
  served w key xs = record w {
    obj = (f xs w.obj).1;
    sent = w.sent ++ (actor_message pid (register_future key (result_bytes xs w.obj)) ∷ []);
  }

  module _ (codec : DvCodec) (heard : VectorDistribution)
      (functions : Bytes → Option (ℕ → Bytes → A → Result (Bytes × A))) where
    serve_request_lem :
        (w : Worker A) (key : ℕ) (xs : Args ts)
        → functions name ≡ some (λ id. actor_function_handler ts result f)
        → AreValues ts xs
        → length (all_bytes ts xs) < size_mod
        → serve_request functions pid w (queued_call key xs) ≡ ok (served w key xs)
    unfolding serve_request report_result
    serve_request_lem w key xs known h fits =
        let msg = call_message name ts xs in
        let runs : call_function functions msg w.obj ≡ ok (result_bytes xs w.obj, (f xs w.obj).1) =
          call_function_lem functions msg w.obj known
          ∙ ap (λ buf. actor_function_handler ts result f buf w.obj)
              (sym (append-nil (serialize ts xs)))
          ∙ actor_function_handler-serialize ts result f xs [] w.obj h fits in
        ap
          (λ r. r >>= λ done.
            ok
              (report_result functions pid (record w { obj = done.1 }) (queued_call key xs) done.0))
          runs

    called-IsQuiet :
        (s : Server) (msg : CallActorMessage) (queue : List Request)
        → IsQuiet s
        → IsQuiet (called s src msg queue)
    called-IsQuiet s msg queue q = record {
      settled = record { at = q.settled.at };
      no_fetch = q.no_fetch;
    }

    -- A call of a function of the actor, by a process other than the actor's worker, when the queue is
    -- empty, the key that comes next is unused and no fetch waits. The call is sent and read whole, and
    -- the caller gets the key. The worker finds the call in the queue, runs the function on the
    -- arguments and registers its result under the key, with a message that is sent and read whole.
    -- The caller, whether it asks before or after that, is sent the result once and reads the
    -- function's value from it. The messages of the call and of the result are shorter than 2 ^ 31
    -- bytes, and the name of the function has no zero.
    pub call_answered :
        (s : Server) (w : Worker A) (xs : Args ts) (early : Bool) (memory : ℕ → ℕ) (rest : Bytes)
        → functions name ≡ some (λ id. actor_function_handler ts result f)
        → IsQuiet s
        → s.worker ≡ some []
        → s.next_key + 1 < int_min
        → cell s s.next_key ≡ unused
        → All IsChar name
        → AreValues ts xs
        → 20 + (length name + 1) + length (all_bytes ts xs) < int_min
        → IsValue result (f xs w.obj).0
        → 16 + length (all_bytes (result ∷ []) ((f xs w.obj).0, tt)) < int_min
        → (msg : CallActorMessage) × (s1 s2 : Server) × (active_call name ts xs ≡ ok msg)
          × (conveyed memory rest (call_actor msg) ≡ ok (some (call_actor msg)))
          × (handle_call_actor s src msg ≡ ok s1)
          × (s1.sent ≡ s.sent ++ (response_code src s.next_key ∷ []))
          × (s1.worker ≡ some (queued_call s.next_key xs ∷ []))
          × (serve_request functions pid w (queued_call s.next_key xs)
              ≡ ok (served w s.next_key xs))
          × (conveyed memory rest (register_future s.next_key (result_bytes xs w.obj))
              ≡ ok (some (register_future s.next_key (result_bytes xs w.obj))))
          × (future_run codec heard s1 (history early src s.next_key (result_bytes xs w.obj))
              ≡ ok s2)
          × (s2.sent ≡ s1.sent ++ (future_data src (result_bytes xs w.obj) ∷ []))
          × (retrieve (future_of pid s.next_key) ≡ some (pid, get_future_data s.next_key))
          × (get result (future_of pid s.next_key) (result_bytes xs w.obj)
              ≡ ok (
                (f xs w.obj).0,
                record { held = some (result_bytes xs w.obj); pid = pid; key = s.next_key },
              ))
    unfolding get retrieve future_of AreValues active_call Fits
    call_answered s w xs early memory rest known q empty small fresh chars h fits h' fits' =
        let msg = call_message name ts xs in
        let s1 = called s src msg [] in
        let bytes = result_bytes xs w.obj in
        let wide : length (all_bytes ts xs) < size_mod = omega (arith, fits) in
        let value : Args (result ∷ []) = ((f xs w.obj).0, tt) in
        let wide' : length (all_bytes (result ∷ []) value) < size_mod = omega (arith, fits') in
        let args_size = ap length (serialize-all_bytes ts xs h wide) in
        let result_size = ap length (serialize-all_bytes (result ∷ []) value (h', tt) wide') in
        let call_size : 20 + (length name + 1) + length (serialize ts xs) < int_min =
          omega (arith, fits, args_size) in
        let reply_size : 16 + length bytes < int_min = omega (arith, fits', result_size) in
        let no_wrap : ltb (20 + (length name + 1) + length (serialize ts xs)) int_min ≡ true =
          ground (arith, call_size) in
        let (s2, runs, sent, quiet) =
          future_run_refines codec heard s1 (history early src s.next_key bytes)
            (called-IsQuiet s msg [] q) in
        (
          msg,
          s1,
          s2,
          rw no_wrap refl,
          conveyed_lem memory rest (call_actor msg)
              (chars, omega (arith, call_size), omega (arith, call_size), omega arith)
              (call_actor-short memory msg call_size),
          handle_call_actor_lem s src msg [] empty small,
          refl,
          refl,
          serve_request_lem w s.next_key xs known h wide,
          conveyed_lem memory rest (register_future s.next_key bytes)
              (omega (arith, small), omega (arith, reply_size))
              (register_future-short memory s.next_key bytes reply_size),
          runs,
          sent
              ∙ ap (λ r. s1.sent ++ r) (replies-history (cell s1) early src s.next_key bytes fresh),
          refl,
          ap (λ r. r >>= λ ys. ok (ys.0, record { held = some bytes; pid = pid; key = s.next_key }))
              (ap (λ buf. deserialize buf (result ∷ [])) (sym (append-nil bytes))
                ∙ deserialize-serialize (result ∷ []) value [] (h', tt) wide'),
        )
