-- ===== src/Server/State.antt =====
-- The state of an `ActorServer` (ActiveBSP/include/management/ActorServer.h), with what it shares
-- with the other objects of its process, and what it sends.
use activebsp.Base.{
  ℕ, ◌==◌, Bool, true, false, Option, none, some, List, [], ◌∷◌, ◌++◌, Map, empty_map, minus_one,
  if◌then◌else◌, Result, ok, fault, deadlock, null_pointer,
}
use activebsp.Store.DataStore.{Bytes, DataStore, data_store}
use activebsp.Store.Futures.{FutureStore}
use activebsp.Message.{Message, CallActorMessage, FetchMessage}
use activebsp.Distribution.VectorDistribution.{VectorDistribution}

-- `pending_result_request_t`.
pub record PendingResultRequest : Type 0 where
  pub offset : ℕ
  pub size : ℕ
  pub dst : ℕ

-- `ActiveObjectRequest`: a call that waits for the worker, and the key of its future. The worker
-- takes the source -1 for the order to stop.
pub record Request : Type 0 where
  pub source : ℕ
  pub key : ℕ
  pub call : Option CallActorMessage

-- `_intraActorComm`: the rank among the processes of the actor, and their number.
pub record IntraComm : Type 0 where
  pub pid : ℕ
  pub nprocs : ℕ

-- A call of the communicator that sends.
pub data Sent : Type 0 where
  response_code : ℕ → ℕ → Sent
  future_data : ℕ → Bytes → Sent
  result_part : ℕ → Bytes → Sent
  distr_vector : ℕ → VectorDistribution → Sent
  actor_message : ℕ → Message → Sent

-- `pid` is `_actorComm->pid()`, `next_key` the process's `FutureKeyManager`, `locked` the mutex
-- `_result_store_lock` and `worker` the queue behind `_actorWorkerProxy`, `none` for the null
-- pointers. `sent` is what the server has sent, oldest first.
pub record Server : Type 0 where
  pub pid : ℕ
  pub running : Bool
  pub worker : Option (List Request)
  pub intra : Option IntraComm
  pub pids : List ℕ
  pub next_key : ℕ
  pub future_data_store : FutureStore
  pub pending_future_requests : Map (List ℕ)
  pub asked_future_delete : Map Bool
  pub asked_fetch : Map FetchMessage
  pub part_missing : Map ℕ
  pub parts : DataStore
  pub pending_result_requests : Map (List PendingResultRequest)
  pub next_result_store_local_key : ℕ
  pub locked : Bool
  pub sent : List Sent

-- The constructor, followed by the first line of `run`.
unfoldable pub start : ℕ → Server
start pid = record {
  pid = pid;
  running = true;
  worker = none;
  intra = none;
  pids = [];
  next_key = 0;
  future_data_store = empty_map;
  pending_future_requests = empty_map;
  asked_future_delete = empty_map;
  asked_fetch = empty_map;
  part_missing = empty_map;
  parts = data_store;
  pending_result_requests = empty_map;
  next_result_store_local_key = minus_one;
  locked = false;
  sent = [];
}

abbrev pub send : Server → Sent → Server
send s x = record s { sent = s.sent ++ (x ∷ []) }

-- `pthread_mutex_lock`: the mutex is not recursive, and only this thread gives it back here.
abbrev pub lock : Server → Result Server
lock s = if s.locked then fault deadlock else ok (record s { locked = true })

abbrev pub unlock : Server → Server
unlock s = record s { locked = false }

-- `setIntraActorComm`, called by the worker's thread when it starts.
unfoldable pub set_intra_actor_comm : Server → IntraComm → Server
set_intra_actor_comm s comm = record s { intra = some comm }

-- `_intraActorComm->...`
abbrev pub intra_comm : Server → Result IntraComm
intra_comm s = elim s.intra [ none ↦ fault null_pointer | some comm ↦ ok comm ]

-- `isHead`.
abbrev pub is_head : IntraComm → Bool
is_head comm = comm.pid == 0
