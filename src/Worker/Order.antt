-- ===== src/Worker/Order.antt =====
-- The order of the calls of an actor, from the server (ActorServer.cpp) through the queue to the
-- worker (ActorWorker.cpp).
use activebsp.Base.{
  ℕ, ◌+◌, ◌<◌, ◌≡◌, refl, sym, ap, ◌∙◌, ◌==◌, true, false, Option, none, some, List, [], ◌∷◌, ◌++◌,
  append_assoc, append-nil, arith, All, length, int_min, minus_one, Result, ok, ◌>>=◌, >>=-assoc,
  fun_ext,
}
use activebsp.Store.DataStore.{Bytes}
use activebsp.Store.Futures.{take_key}
use activebsp.Message.{CallActorMessage, register_future}
use activebsp.Server.State.{Server, Request, Sent, actor_message, response_code}
use activebsp.Server.Route.{post, handle_call_actor}
use activebsp.Worker.{
  Worker, call_function, report_result, serve_request, master_loop, post_message,
}

-- A call with the process that sent it.
abbrev pub Call : Type 0
Call = ℕ × CallActorMessage

-- The calls handled by the server in turn.
unfoldable pub call_all : Server → List Call → Result Server
call_all s [] = ok s
call_all s ((src, msg) ∷ calls) = handle_call_actor s src msg >>= λ s'. call_all s' calls

-- The requests for calls whose keys count up from `next`, and the answers to the callers.
abbrev pub requests_from : ℕ → List Call → List Request
requests_from next [] = []
requests_from next ((src, msg) ∷ calls) =
    record { source = src; key = next; call = some msg } ∷ requests_from (next + 1) calls

abbrev pub keys_sent : ℕ → List Call → List Sent
keys_sent next [] = []
keys_sent next ((src, msg) ∷ calls) = response_code src next ∷ keys_sent (next + 1) calls

-- The server after a call: the request stands last in the queue, and the caller has its key.
abbrev pub called : Server → ℕ → CallActorMessage → List Request → Server
called s src msg queue = record s {
  next_key = s.next_key + 1;
  worker = some (queue ++ (record { source = src; key = s.next_key; call = some msg } ∷ []));
  sent = s.sent ++ (response_code src s.next_key ∷ []);
}

pub handle_call_actor_lem :
    (s : Server) (src : ℕ) (msg : CallActorMessage) (queue : List Request)
    → s.worker ≡ some queue
    → s.next_key + 1 < int_min
    → handle_call_actor s src msg ≡ ok (called s src msg queue)
unfolding handle_call_actor post take_key
handle_call_actor_lem s src msg queue e small = ground (arith, e)

call_all_lem :
    (s : Server) (calls : List Call) (queue : List Request)
    → s.worker ≡ some queue
    → s.next_key + length calls < int_min
    → (s' : Server) × (call_all s calls ≡ ok s')
      × (s'.sent ≡ s.sent ++ keys_sent s.next_key calls)
      × (s'.worker ≡ some (queue ++ requests_from s.next_key calls))
unfolding call_all
call_all_lem s [] queue e small =
    (s, refl, sym (append-nil s.sent), e ∙ ap some (sym (append-nil queue)))
call_all_lem s ((src, msg) ∷ calls) queue e small =
    let req : Request = record { source = src; key = s.next_key; call = some msg } in
    let first = handle_call_actor_lem s src msg queue e (omega arith) in
    let (s', runs, sent, waits) =
      call_all_lem (called s src msg queue) calls (queue ++ (req ∷ [])) refl (omega arith) in
    (
      s',
      rw first runs,
      sent
          ∙ append_assoc s.sent (response_code src s.next_key ∷ [])
              (keys_sent (s.next_key + 1) calls),
      waits ∙ ap some (append_assoc queue (req ∷ []) (requests_from (s.next_key + 1) calls)),
    )

-- The results registered under keys that count up from `next`, with the process's own server.
abbrev pub registered : ℕ → ℕ → List Bytes → List Sent
registered pid next [] = []
registered pid next (serial ∷ serials) =
    actor_message pid (register_future next serial) ∷ registered pid (next + 1) serials

-- A process that sends a call has no negative number.
abbrev pub FromProcess : Call → Type 0
FromProcess call = call.0 < int_min

module _ {A : Type 0} (functions : Bytes → Option (ℕ → Bytes → A → Result (Bytes × A))) where
  -- The functions called one after the other on the object, with no queue and no keys.
  abbrev pub run_calls : A → List Call → Result (List Bytes × A)
  run_calls obj [] = ok ([], obj)
  run_calls obj ((src, msg) ∷ calls) = call_function functions msg obj >>= λ now.
      run_calls now.1 calls >>= λ later. ok (now.0 ∷ later.0, later.1)

  module _ (pid : ℕ) where
    -- The worker that has registered results after those of `w`, and ended.
    abbrev pub ended :
        Worker A → ℕ → List Request → List Bytes × A → Result (Worker A × List Request)
    ended w next rest done =
        ok (record { run = false; obj = done.1; sent = w.sent ++ registered pid next done.0 }, rest)

    -- One more result in front of those that `ended` lists.
    ended-report_result :
        (w : Worker A) (next : ℕ) (req : Request) (rest : List Request) (now : Bytes × A)
        (later : List Bytes × A)
        → req.key ≡ next
        → ended
            (report_result functions pid (record w { obj = now.1 }) req now.0)
            (next + 1)
            rest
            later
          ≡ ended w next rest (now.0 ∷ later.0, later.1)
    unfolding report_result
    ended-report_result w next req rest now later e =
        let key = ap (λ k. actor_message pid (register_future k now.0)) e in
        λ i. ok (
          record {
            run = false;
            obj = later.1;
            sent =
                (append_assoc w.sent (actor_message pid (register_future req.key now.0) ∷ [])
                      (registered pid (next + 1) later.0)
                    ∙ ap (λ out. w.sent ++ (out ∷ registered pid (next + 1) later.0)) key)
                  i;
          },
          rest,
        )

    master_loop_lem :
        (w : Worker A) (next : ℕ) (calls : List Call) (stop : Request) (rest : List Request)
        → stop.source ≡ minus_one
        → All FromProcess calls
        → master_loop functions pid w (requests_from next calls ++ (stop ∷ rest))
          ≡ (run_calls w.obj calls >>= ended w next rest)
    unfolding master_loop serve_request
    master_loop_lem w next [] stop rest e from =
        let is_stop : (stop.source == minus_one) ≡ true = ground (arith, e) in
        rw is_stop
          (λ i. ok (record { run = false; obj = w.obj; sent = sym (append-nil w.sent) i }, rest))
    master_loop_lem w next ((src, msg) ∷ calls) stop rest e (h, hs) =
        let is_call : (src == minus_one) ≡ false = ground arith in
        let req : Request = record { source = src; key = next; call = some msg } in
        let call = call_function functions msg w.obj in
        let reported : Bytes × A → Worker A =
          λ now. report_result functions pid (record w { obj = now.1 }) req now.0 in
        let queue = requests_from (next + 1) calls ++ (stop ∷ rest) in
        let one : (now : Bytes × A)
            → master_loop functions pid (reported now) queue ≡ (
                run_calls now.1 calls >>= λ later.
                ok (now.0 ∷ later.0, later.1) >>= ended w next rest) =
          λ now.
            master_loop_lem (reported now) (next + 1) calls stop rest e hs
            ∙ ap (λ k. run_calls now.1 calls >>= k)
                (fun_ext (λ later. ended-report_result w next req rest now later refl)) in
        let joined : Bytes × A → Result (List Bytes × A) =
          λ now. run_calls now.1 calls >>= λ later. ok (now.0 ∷ later.0, later.1) in
        rw is_call (
          >>=-assoc call (λ now. ok (reported now)) (λ w'. master_loop functions pid w' queue)
          ∙ ap (λ k. call >>= k)
              (fun_ext (λ now.
                one now
                ∙ sym (
                    >>=-assoc (run_calls now.1 calls) (λ later. ok (now.0 ∷ later.0, later.1))
                      (ended w next rest))))
          ∙ sym (>>=-assoc call joined (ended w next rest)))

    -- Calls that reach the server of an actor whose queue is empty, followed by the order to stop,
    -- are all answered and served, if fewer than 2 ^ 31 keys are given out. Each caller gets its own
    -- key at once, the keys counting up. The worker then runs the functions one after the other in
    -- the order of the calls, registers each result as the future of its call's key, once and in
    -- that order, ends, and leaves nothing in the queue, unless a function faults, which is then how
    -- the worker ends. A name that is not registered gives the bytes of "error".
    pub calls_served_in_order :
        (s : Server) (w : Worker A) (calls : List Call)
        → s.worker ≡ some []
        → s.next_key + length calls < int_min
        → All FromProcess calls
        → (s' : Server) × (queue : List Request) × (call_all s calls ≡ ok s')
          × (s'.sent ≡ s.sent ++ keys_sent s.next_key calls)
          × (s'.worker ≡ some queue)
          × (master_loop functions pid w
                (post_message queue (record { source = minus_one; key = 0; call = none }))
              ≡ (run_calls w.obj calls >>= ended w s.next_key []))
    unfolding post_message
    calls_served_in_order s w calls empty small from =
        let (s', runs, sent, waits) = call_all_lem s calls [] empty small in
        (
          s',
          requests_from s.next_key calls,
          runs,
          sent,
          waits,
          master_loop_lem w s.next_key calls (record { source = minus_one; key = 0; call = none })
              [] refl from,
        )
