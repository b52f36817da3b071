-- ===== src/Worker/End/Together.antt =====
-- That the processes of an actor end together, from the caller's order to the last server.
use activebsp.Base.{
  ℕ, ◌+◌, ◌<◌, ◌≡◌, refl, sym, ap, ◌∙◌, true, false, none, some, List, [], ◌∷◌, ◌++◌, append_assoc,
  append-nil, arith, All, length, int_min, minus_one, ok, ◌>>=◌, >>=-assoc, >>=-eq-ok, ok-injective,
  int_add, value_or, All-append, Bool, if◌then◌else◌,
}
use activebsp.Store.DataStore.{Bytes}
use activebsp.Message.{CallActorMessage, stop_actor}
use activebsp.Server.State.{Server, Request, actor_message, response_code, send}
use activebsp.Server.Route.{post, stop_worker, handle_stop_actor}
use activebsp.Worker.{Worker, call_function, post_message}
use activebsp.Worker.Order.{
  Call, call_all, FromProcess, run_calls, registered, ended, calls_served_in_order,
}
use activebsp.Worker.Spmd.{Actor, kill_slaves}
use activebsp.Worker.Spmd.Table.{IsTable}
use activebsp.Worker.Spmd.Lockstep.{run_all, IsRegistered, numbers, slave_loop_lem}
use activebsp.Worker.End.{
  Head, Ending, Functions, destroy_master_object, destroy_actor, handler, after_master, after_slave,
}

-- The order to stop, as the proxy of the worker posts it.
abbrev pub stop_request : Request
stop_request = record { source = minus_one; key = 0; call = none }

-- The server of a process without an actor.
abbrev pub released : Server → Server
released s = record s { pids = []; worker = none }

handle_stop_actor_lem :
    (s : Server) (src : ℕ) (ask : Bool) {queue : List Request}
    → s.worker ≡ some queue
    → handle_stop_actor s src ask
      ≡ ok (if ask then send (released s) (response_code src 0) else released s)
unfolding handle_stop_actor stop_worker post
handle_stop_actor_lem s src ask e = ground (arith, e)

module _ {A : Type 0} (a : Actor A) (functions : Functions A) where
  -- The numbers of registered functions, one after another.
  abbrev pub Sends : List ℕ → List ℕ → Type 0
  Sends before after =
      (addrs : List ℕ) × (All (IsRegistered a) addrs) × (after ≡ before ++ numbers a addrs)

  -- The functions of the actor send numbers by running parallel functions of the table only.
  abbrev pub IsParallel : Type 0
  IsParallel =
      (msg : CallActorMessage) (now later : Head A) (bytes : Bytes)
      → call_function functions msg now ≡ ok (bytes, later)
      → Sends now.numbers later.numbers

  numbers-append : (xs ys : List ℕ) → numbers a (xs ++ ys) ≡ numbers a xs ++ numbers a ys
  numbers-append [] ys = refl
  numbers-append (x ∷ xs) ys =
      ap (λ ns. int_add (value_or 0 (a.spmd_function_ids x)) 1 ∷ ns) (numbers-append xs ys)

  Sends-trans : (x y z : List ℕ) → Sends x y → Sends y z → Sends x z
  Sends-trans x y z (first, h, e) (second, k, e') = (
    first ++ second,
    All-append (IsRegistered a) first second h k,
    e'
        ∙ ap (λ ns. ns ++ numbers a second) e
        ∙ append_assoc x (numbers a first) (numbers a second)
        ∙ ap (λ ns. x ++ ns) (sym (numbers-append first second)),
  )

  run_calls-Sends :
      (now : Head A) (calls : List Call) {serials : List Bytes} {last : Head A}
      → IsParallel
      → run_calls functions now calls ≡ ok (serials, last)
      → Sends now.numbers last.numbers
  run_calls-Sends now [] p h =
      ([], tt, sym (ap (λ r. r.1.numbers) (ok-injective h)) ∙ sym (append-nil now.numbers))
  run_calls-Sends now ((src, msg) ∷ calls) p h =
      let ((bytes, next), called, rest) = >>=-eq-ok (call_function functions msg now) _ h in
      let ((serials', last'), ran, done) = >>=-eq-ok (run_calls functions next calls) _ rest in
      let (addrs, all, e) =
        Sends-trans now.numbers next.numbers last'.numbers (p msg now next bytes called)
          (run_calls-Sends next calls p ran) in
      (addrs, all, sym (ap (λ r. r.1.numbers) (ok-injective done)) ∙ e)

  module _ (pid : ℕ) where
    -- The first process at its end, with the results that it has registered.
    abbrev pub head_ending : ℕ → List Bytes → List ℕ → Ending A
    head_ending next serials addrs = record {
      obj = none;
      sent = registered pid next serials;
      numbers = numbers a addrs ++ (kill_slaves ∷ []);
    }

    -- Another process `other` at its end: it tells its own server to stop its worker.
    abbrev pub other_ending : ℕ → Ending A
    other_ending other = record {
      obj = none;
      sent = actor_message other (stop_actor false) ∷ [];
      numbers = [];
    }

    -- Calls reach the server of an actor's first process, whose queue is empty, and then the order to
    -- stop, as `caller` asks for it. Fewer than 2 ^ 31 keys are given out, no function called faults, and
    -- the functions send numbers only by running parallel functions of the table. Then the first
    -- process ends: it has registered the results of all the calls in their order, has sent the
    -- numbers of some functions of the table and behind them the stop number, and has deleted its
    -- object. Another process that gets these numbers runs just these functions, unless one faults,
    -- ends, deletes its object and tells its own server to stop. The two servers are then without a
    -- worker and a list of processes and otherwise as they were; the first one answers `caller` with
    -- 0, and the other one answers nobody.
    pub actor_ends :
        (s t : Server) (caller : ℕ) (obj slave : A) (calls : List Call) {serials : List Bytes}
        {last : Head A} {waiting : List Request}
        → IsTable a
        → IsParallel
        → s.worker ≡ some []
        → s.next_key + length calls < int_min
        → All FromProcess calls
        → run_calls functions (record { obj = obj; numbers = [] }) calls ≡ ok (serials, last)
        → t.worker ≡ some waiting
        → (addrs : List ℕ) × (s' : Server) × (queue : List Request) × (All (IsRegistered a) addrs)
          × (call_all s calls ≡ ok s')
          × (s'.worker ≡ some queue)
          × (handler a functions true pid obj (post_message queue stop_request) []
              ≡ ok (some (head_ending s.next_key serials addrs)))
          × (handler a functions false t.pid slave [] (numbers a addrs ++ (kill_slaves ∷ []))
              ≡ (run_all a addrs slave >>= λ done. ok (some (other_ending t.pid))))
          × (handle_stop_actor s' caller true ≡ ok (send (released s') (response_code caller 0)))
          × (handle_stop_actor t t.pid false ≡ ok (released t))
    unfolding handler destroy_actor destroy_master_object
    actor_ends s t caller obj slave calls {serials = serials} {last = last} table p empty small from
          ran e =
        let start : Head A = record { obj = obj; numbers = [] } in
        let (addrs, all, sends) = run_calls-Sends start calls p ran in
        let w : Worker (Head A) = record { run = true; obj = start; sent = [] } in
        let (s', queue, runs, sent, waits, ends) =
          calls_served_in_order functions pid s w calls empty small from in
        (
          addrs,
          s',
          queue,
          all,
          runs,
          waits,
          ap (λ r. r >>= λ done. ok (after_master pid done))
                (ends ∙ ap (λ r. r >>= ended functions pid w s.next_key []) ran)
              ∙ ap
                  (λ ns. ok (
                    some (record {
                      obj = none;
                      sent = registered pid s.next_key serials;
                      numbers = ns ++ (kill_slaves ∷ []);
                    })))
                  sends,
          ap (λ r. r >>= λ done. ok (after_slave t.pid done))
                (slave_loop_lem a addrs slave [] table all)
              ∙ >>=-assoc (run_all a addrs slave) (λ done. ok (some (done, [])))
                  (λ done. ok (after_slave t.pid done)),
          handle_stop_actor_lem s' caller true waits,
          handle_stop_actor_lem t t.pid false e,
        )
