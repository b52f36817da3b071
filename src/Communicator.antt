-- ===== src/Communicator.antt =====
-- ActiveBSP/src/mpi/MPIActorCommunicator.cpp: reading a range of a distributed vector, and sharing
-- one out. MPI is a parameter: a send of a message, and what is received.
pub mod Grouping
pub mod Answers
pub mod Reads
pub mod Sharing
pub mod Sizes
use activebsp.Base.{
  ℕ, ◌+◌, ◌-◌, ◌*◌, ◌/◌, ◌==◌, Bool, true, false, List, [], ◌∷◌, ◌++◌, length, slice, ltb, int_lt,
  if◌then◌else◌, to_int, to_size, int_add, int_sub, size_add, size_sub, Result, ok, fault, deadlock,
  ◌>>=◌, map,
}
use activebsp.Pieces.{Chunk, copy_all}
use activebsp.Distribution.VectorDistribution.{Part, VectorDistribution, all_parts}
use activebsp.Distribution.Ranges.{misses, wanted_offset, wanted_size}
use activebsp.Store.DataStore.{Bytes}
use activebsp.Message.{Message, ReqPart, get_result_parts, store_result, release_result_part}
use activebsp.Server.State.{Sent, actor_message}

-- One entry of `reqs`, a `result_req_part_t`, with the process that owns the part. `dst` is the
-- place in `out_buf`.
pub record Request : Type 0 where
  pub owner : ℕ
  pub resid : ℕ
  pub offset : ℕ
  pub size : ℕ
  pub dst : ℕ

-- What the loop of `dv_get_part` computes for a part that it does not skip.
abbrev pub request : ℕ → ℕ → Part → Request
request offset req_end part =
    let req_offset = wanted_offset offset part in
    record {
      owner = part.pid;
      resid = part.resid;
      offset = req_offset;
      size = wanted_size offset req_end part;
      dst = size_sub (size_add req_offset part.offset) offset;
    }

-- The requests of the whole loop, for the range `[offset, req_end)`.
unfoldable pub requests : ℕ → ℕ → List Part → List Request
requests offset req_end [] = []
requests offset req_end (part ∷ parts) =
    let rest = requests offset req_end parts in
    if misses offset req_end part then rest else request offset req_end part ∷ rest

-- Those for parts of the process itself, which are read in the loop.
unfoldable pub local_requests : ℕ → List Request → List Request
local_requests pid [] = []
local_requests pid (r ∷ rs) =
    let rest = local_requests pid rs in if r.owner == pid then r ∷ rest else rest

-- `reqs[part->pid].push_back(...)`: the map, in the order of its keys.
unfoldable pub push_request : Request → List (ℕ × List Request) → List (ℕ × List Request)
push_request r [] = (r.owner, r ∷ []) ∷ []
push_request r ((pid, rs) ∷ reqs) =
    let later = push_request r reqs in
    if r.owner == pid
    then (pid, rs ++ (r ∷ [])) ∷ reqs
    else if int_lt r.owner pid
    then (r.owner, r ∷ []) ∷ (pid, rs) ∷ reqs
    else (pid, rs) ∷ later

-- `reqs` after the loop, from what it held before.
unfoldable pub remote_requests :
    ℕ → List Request → List (ℕ × List Request) → List (ℕ × List Request)
remote_requests pid [] reqs = reqs
remote_requests pid (r ∷ rs) reqs =
    remote_requests pid rs (if r.owner == pid then reqs else push_request r reqs)

abbrev pub as_part : Request → ReqPart
as_part r = record { resid = r.resid; offset = r.offset; size = r.size }

-- One message to each owner, which answers to this process.
abbrev pub request_messages : ℕ → List (ℕ × List Request) → List Sent
request_messages pid [] = []
request_messages pid ((owner, rs) ∷ reqs) =
    actor_message owner (get_result_parts pid (map as_part rs)) ∷ request_messages pid reqs

-- In the order in which the receptions are posted.
abbrev pub posted : List (ℕ × List Request) → List Request
posted [] = []
posted ((owner, rs) ∷ reqs) = rs ++ posted reqs

-- `readStoredResult(buf, key, offset, size)` of SharedMemoryMasterProxy.cpp, for a part that is
-- there: -1, with nothing copied, where the range ends past the part. The offset and the size
-- are `int`s.
unfoldable pub read_stored_result : Bytes → ℕ → ℕ → ℕ → ℕ × List Chunk
read_stored_result stored dst offset size =
    let o = to_int offset in
    let n = to_int size in
    if ltb (length stored) (to_size (int_add o n))
    then (int_sub 0 1, [])
    else (0, record { offset = dst; bytes = slice o n stored } ∷ [])

-- The parts that the processes hold: the bytes under a key of a process.
module _ (stored : ℕ → ℕ → Bytes) where
  unfoldable pub read_local : List Request → List Chunk
  unfolding read_stored_result
  read_local [] = []
  read_local (r ∷ rs) =
      (read_stored_result (stored r.owner r.resid) r.dst r.offset r.size).1 ++ read_local rs

  -- The answers of the owners, each received in the order of its requests. An owner does not answer
  -- a range that ends past its part, and the reception then waits for ever.
  unfoldable pub receive_remote : List Request → Result (List Chunk)
  receive_remote [] = ok []
  receive_remote (r ∷ rs) =
      if ltb (length (stored r.owner r.resid)) (size_add r.offset r.size)
      then fault deadlock
      else receive_remote rs >>= λ cs. ok (
          record { offset = r.dst; bytes = slice r.offset (to_int r.size) (stored r.owner r.resid) }
          ∷ cs)

  -- `dv_get_part(dv, offset, out_buf, size)` on process `pid`, which returns `out_buf`, where every
  -- part is available to the process that owns it.
  unfoldable pub dv_get_part : ℕ → VectorDistribution → ℕ → Bytes → Result Bytes
  unfolding requests local_requests remote_requests read_local receive_remote push_request
  dv_get_part pid dv offset out_buf =
      let rs = requests offset (size_add offset (length out_buf)) (all_parts dv) in
      receive_remote (posted (remote_requests pid rs [])) >>= λ cs.
      ok (copy_all (copy_all out_buf (read_local (local_requests pid rs))) cs)

-- `block_distribute(head, v, n, elem_size)`, once the distribution is received from the head: each
-- part of the vector is sent to the process that is to hold it.
unfoldable pub send_blocks : Bytes → List Part → List Sent
send_blocks v [] = []
send_blocks v (part ∷ parts) =
    actor_message part.pid (store_result part.resid (slice part.offset part.size v))
    ∷ send_blocks v parts

-- `dv_release`.
unfoldable pub dv_release : List Part → List Sent
dv_release [] = []
dv_release (part ∷ parts) =
    actor_message part.pid (release_result_part part.resid) ∷ dv_release parts

-- `receiveDistrVector`: the number of parts in a message of so many bytes.
unfoldable pub received_parts : ℕ → ℕ
received_parts rcv_count = (rcv_count - 4) / 24
