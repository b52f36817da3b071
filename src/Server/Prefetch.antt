-- ===== src/Server/Prefetch.antt =====
-- `handlePrefetchMessage` of ActorServer.cpp: room for a distributed vector on every process of the
-- actor, and a new future of the head that holds its distribution.
pub mod Moves
use activebsp.Base.{
  ℕ, zero, suc, ◌+◌, List, ◌∷◌, assign, drop, if◌then◌else◌, size_sub, Result, ok, fault, ◌>>=◌,
  out_of_bounds,
}
use activebsp.Distribution.BlockRange.{div_range}
use activebsp.Distribution.VectorDistribution.{
  VectorDistribution, vector_distribution, register_part,
}
use activebsp.Store.DataStore.{prepare_part_vector}
use activebsp.Store.Futures.{take_key}
use activebsp.Message.{PrefetchMessage, FetchMessage, prefetch, fetch}
use activebsp.Server.State.{
  Server, IntraComm, response_code, actor_message, send, lock, unlock, intra_comm, is_head,
}
use activebsp.Server.Fetch.{DvCodec, send_to_all}
use activebsp.Server.Futures.{register_future}

-- The reply of the head: a new future key for the caller, and the message for the other processes.
unfoldable pub announce : Server → ℕ → PrefetchMessage → ℕ × Server
announce s src msg =
    let (key, next) = take_key s.next_key in
    let s1 = send (record s { next_key = next }) (response_code src key) in
    (key, send_to_all s1 (drop 1 s1.pids) (prefetch msg))

-- Room for the block of this process, under a new key.
unfoldable pub make_room : Server → IntraComm → ℕ → Result (ℕ × Server)
make_room s comm size =
    let (part_offset, part_end) = div_range size comm.pid comm.nprocs in
    let part_size = size_sub part_end part_offset in
    let (part_key, next) = take_key s.next_key in
    lock (record s { next_key = next }) >>= λ s1.
    prepare_part_vector s1.parts part_key part_size >>= λ parts. ok (
      part_key,
      unlock
          (record s1 { part_missing = assign part_key part_size s1.part_missing; parts = parts }),
    )

-- The loop that fills in the distribution, over the processes and keys of the fetch message.
unfoldable pub register_rooms :
    ℕ → ℕ → ℕ → ℕ → List ℕ → List ℕ → VectorDistribution → Result VectorDistribution
register_rooms size p i zero pids keys vd = ok vd
register_rooms size p i (suc rounds) (pid ∷ pids) (key ∷ keys) vd =
    let (offset, end) = div_range size i p in
    register_part vd i
      (record { pid = pid; resid = key; size = size_sub end offset; offset = offset })
    >>= λ vd'. register_rooms size p (i + 1) rounds pids keys vd'
register_rooms size p i (suc rounds) pids keys vd = fault out_of_bounds

module _ (codec : DvCodec) where
  -- What the head does once the keys of all processes, `gathered`, are there.
  unfoldable pub request_fetch :
      List ℕ → VectorDistribution → Server → IntraComm → PrefetchMessage → ℕ → Result Server
  unfolding register_rooms
  request_fetch gathered heard s comm msg res_key = do
    let fetch_message : FetchMessage = record {
      pids = s.pids;
      keys = gathered;
      req_future_key = msg.future_key;
      res_future_key = res_key;
      dv_size = msg.dv_size;
    }
    let s1 = send s (actor_message msg.future_pid (fetch fetch_message))
    let p = comm.nprocs
    vd ← register_rooms msg.dv_size p 0 p s.pids gathered (vector_distribution p)
    register_future codec heard s1 res_key (codec.serialize vd)

  -- `handlePrefetchMessage`: `gathered` is what `gatherKeys` gives the head.
  unfoldable pub handle_prefetch :
      List ℕ → VectorDistribution → Server → ℕ → PrefetchMessage → Result Server
  unfolding announce make_room request_fetch
  handle_prefetch gathered heard s src msg = do
    comm ← intra_comm s
    let (res_key, s1) = if is_head comm then announce s src msg else (0, s)
    (part_key, s2) ← make_room s1 comm msg.dv_size
    if is_head comm then request_fetch gathered heard s2 comm msg res_key else ok s2
