-- ===== src/Worker/End.antt =====
-- The end of an actor: `handler` and `destroyActor` of ActiveBSP/src/worker/ActorWorker.cpp, with
-- `destroyMasterObject` of shmem/SharedMemoryMasterProxy.cpp. The barrier `bsp_sync` between what a
-- process sends and the deletion of its object is the BSP library's.
pub mod Together
use activebsp.Base.{
  ℕ, Bool, true, false, Option, none, some, List, [], ◌∷◌, ◌++◌, if◌then◌else◌, Result, ok, ◌>>=◌,
}
use activebsp.Store.DataStore.{Bytes}
use activebsp.Message.{stop_actor}
use activebsp.Server.State.{Request, Sent, actor_message}
use activebsp.Worker.{Worker, master_loop}
use activebsp.Worker.Spmd.{Actor, kill_slaves, slave_loop}

-- The object of the first process, with the numbers that its functions have sent to the other
-- processes, oldest first.
pub record Head (A : Type 0) : Type 0 where
  pub obj : A
  pub numbers : List ℕ

-- A process whose thread ends: `_obj`, none for the null pointer, and what was sent, the messages
-- and the numbers.
pub record Ending (A : Type 0) : Type 0 where
  pub obj : Option A
  pub sent : List Sent
  pub numbers : List ℕ

-- The functions by name of a process that works on `Head A`.
abbrev pub Functions : Type 0 → Type 0
Functions A = Bytes → Option (ℕ → Bytes → Head A → Result (Bytes × Head A))

-- `destroyMasterObject`.
unfoldable pub destroy_master_object : ℕ → List Sent → List Sent
destroy_master_object pid sent = sent ++ (actor_message pid (stop_actor false) ∷ [])

module _ {A : Type 0} where
  -- `destroyActor`.
  unfoldable pub destroy_actor : ℕ → Bool → Ending A → Ending A
  unfolding destroy_master_object
  destroy_actor pid is_master e =
      let told =
        if is_master
        then record e { numbers = e.numbers ++ (kill_slaves ∷ []) }
        else record e { sent = destroy_master_object pid e.sent } in
      record told { obj = none }

  -- What `handler` does behind its loop; none where the loop waits for more.
  abbrev pub after_master : ℕ → Worker (Head A) × List Request → Option (Ending A)
  after_master pid done =
      let (w, rest) = done in
      if w.run
      then none
      else some (
          destroy_actor pid true
            (record { obj = some w.obj.obj; sent = w.sent; numbers = w.obj.numbers }))

  abbrev pub after_slave : ℕ → Option (A × List ℕ) → Option (Ending A)
  after_slave pid none = none
  after_slave pid (some (obj, ids)) =
      some (destroy_actor pid false (record { obj = some obj; sent = []; numbers = [] }))

  -- `handler` of process `pid`, on the requests of its queue and the numbers that it receives; none
  -- while it waits for more.
  unfoldable pub handler :
      Actor A → Functions A → Bool → ℕ → A → List Request → List ℕ → Result (Option (Ending A))
  handler a functions true pid obj messages ids =
      master_loop functions pid
        (record { run = true; obj = record { obj = obj; numbers = [] }; sent = [] }) messages
      >>= λ done. ok (after_master pid done)
  handler a functions false pid obj messages ids =
      slave_loop a obj ids >>= λ done. ok (after_slave pid done)
