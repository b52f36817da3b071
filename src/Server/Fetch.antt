-- ===== src/Server/Fetch.antt =====
-- The handlers of ActorServer.cpp that move a distributed vector to the processes of another actor:
-- the fetch message, asked for by a prefetch, and the sending of the parts.
pub mod Sends
pub mod Blocks
pub mod Aligned
use activebsp.Base.{
  ℕ, zero, suc, ◌+◌, ◌==◌, ◌&&◌, ◌||◌, not, min, Bool, true, false, Option, none, some, List, [],
  ◌∷◌, ◌++◌, Map, assign, erase, has_key, length, take, drop, ltb, leb, if◌then◌else◌, size_add,
  size_sub, Result, ok, fault, ◌>>=◌, null_pointer, out_of_bounds, assertion,
}
use activebsp.Distribution.BlockRange.{div_range}
use activebsp.Distribution.VectorDistribution.{Part, VectorDistribution, all_parts}
use activebsp.Distribution.Ranges.{misses, wanted_offset, wanted_size}
use activebsp.Store.DataStore.{Bytes, get_part_data}
use activebsp.Store.Futures.{find_future_data}
use activebsp.Message.{Message, FetchMessage, fetch, store_result_part}
use activebsp.Server.State.{
  Server, IntraComm, actor_message, send, lock, unlock, intra_comm, is_head,
}

-- `serialize_all_to_vchar` and `deserialize_all` at a vector distribution, which go to Boost.
pub record DvCodec : Type 0 where
  pub serialize : VectorDistribution → Bytes
  pub deserialize : Bytes → VectorDistribution

-- A message sent to each process of a list in turn.
abbrev pub send_to_all : Server → List ℕ → Message → Server
send_to_all s [] m = s
send_to_all s (pid ∷ pids) m = send_to_all (send s (actor_message pid m)) pids m

-- The body of the inner loop of `fetchDv`, for the block `[ioffset, iend)` that process `pid` keeps
-- under `key`. The message is built from the beginning of the part's data, with offset 0.
unfoldable pub fetch_part : Server → ℕ → ℕ → ℕ → ℕ → ℕ → Part → Result Server
fetch_part s pid key size ioffset iend part =
    let skipped = not (s.pid == part.pid) || misses ioffset iend part in
    let sent = lock s >>= λ s1. get_part_data s1.parts part.resid >>= λ found. elim found [
      | none ↦ fault assertion
      | some (res, data_size) ↦
          let req_size = wanted_size ioffset iend part in
          let msg = store_result_part (record {
            resid = key;
            offset = 0;
            full_data_size = size;
            bytes = take req_size res;
          }) in
          if ltb (length res) req_size
          then fault out_of_bounds
          else ok (unlock (send s1 (actor_message pid msg)))
    ] in
    if skipped then ok s else sent

unfoldable pub fetch_parts : Server → ℕ → ℕ → ℕ → ℕ → ℕ → List Part → Result Server
fetch_parts s pid key size ioffset iend [] = ok s
fetch_parts s pid key size ioffset iend (part ∷ parts) =
    fetch_part s pid key size ioffset iend part >>= λ s'.
    fetch_parts s' pid key size ioffset iend parts

-- The outer loop from process `i` on: the processes and keys of the message are left.
unfoldable pub fetch_blocks : Server → ℕ → ℕ → ℕ → List ℕ → List ℕ → List Part → Result Server
fetch_blocks s size npids i [] keys parts = ok s
fetch_blocks s size npids i (pid ∷ pids) [] parts = fault out_of_bounds
fetch_blocks s size npids i (pid ∷ pids) (key ∷ keys) parts =
    let (ioffset, iend) = div_range size i npids in
    fetch_parts s pid key size ioffset iend parts >>= λ s'.
    fetch_blocks s' size npids (i + 1) pids keys parts

module _ (codec : DvCodec) where
  -- The distribution that `fetchDv` works on: the head reads it from the future and forwards the
  -- message to the others, which hear it from the head.
  unfoldable pub agree_on_dv :
      VectorDistribution → Server → FetchMessage → IntraComm → Result (VectorDistribution × Server)
  agree_on_dv heard s msg comm =
      if is_head comm
      then elim (find_future_data s.future_data_store msg.req_future_key) [
        | none ↦ fault null_pointer
        | some bytes ↦ ok (codec.deserialize bytes, send_to_all s (drop 1 s.pids) (fetch msg))
      ]
      else ok (heard, s)

  -- `fetchDv`.
  unfoldable pub fetch_dv : VectorDistribution → Server → FetchMessage → Result Server
  unfolding agree_on_dv fetch_blocks fetch_parts
  fetch_dv heard s msg = do
    comm ← intra_comm s
    (dv, s1) ← agree_on_dv heard s msg comm
    fetch_blocks s1 msg.dv_size (length msg.pids) 0 msg.pids msg.keys (all_parts dv)

  -- `handleFetchMessage`: the head keeps the request until the future is there.
  unfoldable pub handle_fetch : VectorDistribution → Server → FetchMessage → Result Server
  handle_fetch heard s msg = do
    comm ← intra_comm s
    let key = msg.req_future_key
    let waits = is_head comm && not (has_key s.future_data_store key)
    let served = fetch_dv heard s msg
    let kept =
        if has_key s.asked_fetch key
        then fault assertion
        else ok (record s { asked_fetch = assign key msg s.asked_fetch })
    if waits then kept else served

  -- `checkFutureRequired`.
  unfoldable pub check_future_required : VectorDistribution → Server → ℕ → Result Server
  check_future_required heard s key = elim (s.asked_fetch key) [
    | none ↦ ok s
    | some msg ↦
        fetch_dv heard s msg >>= λ s'. ok (record s' { asked_fetch = erase key s'.asked_fetch })
  ]
