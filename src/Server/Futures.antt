-- ===== src/Server/Futures.antt =====
-- The handlers of ActorServer.cpp for futures: registering the value, asking for it, releasing it.
pub mod Cell
pub mod Register
pub mod Trace
use activebsp.Base.{
  ℕ, zero, suc, ◌+◌, ◌==◌, ◌&&◌, not, Bool, true, false, Option, none, some, List, [], ◌∷◌, ◌++◌,
  Map, assign, erase, has_key, touch, value_or, drop, if◌then◌else◌, size_sub, Result, ok, fault,
  ◌>>=◌, out_of_bounds,
}
use activebsp.Distribution.BlockRange.{div_range}
use activebsp.Distribution.VectorDistribution.{
  VectorDistribution, vector_distribution, register_part,
}
use activebsp.Store.DataStore.{Bytes, prepare_part_vector}
use activebsp.Store.Futures.{register_future_data, find_future_data, remove_future_data, take_key}
use activebsp.Message.{Message, PrefetchMessage, FetchMessage, prefetch, fetch}
use activebsp.Server.State.{
  Server, Sent, response_code, future_data, actor_message, send, lock, unlock, intra_comm, is_head,
}
use activebsp.Server.Results.{push_back}
use activebsp.Server.Fetch.{DvCodec, send_to_all, check_future_required}

abbrev pub send_future_data : Server → List ℕ → Bytes → Server
send_future_data s [] bytes = s
send_future_data s (pid ∷ pids) bytes = send_future_data (send s (future_data pid bytes)) pids bytes

-- `_askedFutureDelete[key]`, which makes a false entry where there is none.
abbrev pub asked : Server → ℕ → Bool
asked s key = value_or false (s.asked_future_delete key)

abbrev pub touch_asked : Server → ℕ → Server
touch_asked s key = record s { asked_future_delete = touch false key s.asked_future_delete }

-- The requests that wait for a future, answered and forgotten.
unfoldable pub answer_pending : Server → ℕ → Bytes → Server
answer_pending s key bytes = elim (s.pending_future_requests key) [
  | none ↦ s
  | some waiting ↦
      let s' = send_future_data s waiting bytes in
      record s' { pending_future_requests = erase key s'.pending_future_requests }
]

-- The end of `registerFuture`: a future that was released meanwhile is removed again.
unfoldable pub honour_delete : Server → ℕ → Server
honour_delete s key =
    if asked s key
    then record s {
      asked_future_delete = erase key s.asked_future_delete;
      future_data_store = remove_future_data s.future_data_store key;
    }
    else touch_asked s key

-- `handleGetFutureData`.
unfoldable pub handle_get_future_data : Server → ℕ → ℕ → Server
handle_get_future_data s src key = elim (find_future_data s.future_data_store key) [
  | some bytes ↦ send s (future_data src bytes)
  | none ↦ record s { pending_future_requests = push_back key src s.pending_future_requests }
]

-- `handleReleaseFutureMessage`.
unfoldable pub handle_release_future : Server → ℕ → Server
handle_release_future s key = elim (find_future_data s.future_data_store key) [
  | some bytes ↦ record s { future_data_store = remove_future_data s.future_data_store key }
  | none ↦ record s { asked_future_delete = assign key true s.asked_future_delete }
]

module _ (codec : DvCodec) where
  -- `registerFuture`. The deletion map is looked at in the first test only if no request waits.
  unfoldable pub register_future : VectorDistribution → Server → ℕ → Bytes → Result Server
  unfolding answer_pending honour_delete
  register_future heard s key bytes =
      let waited = has_key s.pending_future_requests key in
      let s1 = if waited then s else touch_asked s key in
      let stored =
        check_future_required codec heard
          (record s1 { future_data_store = register_future_data s1.future_data_store key bytes })
          key in
      if not waited && asked s key
      then ok (record s1 { asked_future_delete = erase key s1.asked_future_delete })
      else stored >>= λ s2. ok (honour_delete (answer_pending s2 key bytes) key)
