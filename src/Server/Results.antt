-- ===== src/Server/Results.antt =====
-- The handlers of ActorServer.cpp for the parts of distributed vectors: asking for parts, storing
-- them whole or in chunks, releasing them, and laying out a new vector.
pub mod Answers
pub mod Delivery
pub mod Layout
pub mod Pending
use activebsp.Base.{
  ℕ, zero, suc, ◌+◌, ◌==◌, Bool, true, false, Option, none, some, List, [], ◌∷◌, ◌++◌, Map, assign,
  value_or, length, slice, ltb, if◌then◌else◌, to_int, int_sub, size_add, size_sub, size_mul,
  Result, ok, fault, ◌>>=◌, null_pointer, out_of_bounds,
}
use activebsp.Distribution.BlockRange.{div_range}
use activebsp.Distribution.VectorDistribution.{
  VectorDistribution, vector_distribution, register_part,
}
use activebsp.Store.DataStore.{
  Bytes, StoredMessage, store_part_message, add_data, remove_part, get_part_data,
}
use activebsp.Message.{ReqPart, StoreResultPartMessage}
use activebsp.Server.State.{
  PendingResultRequest, Server, Sent, result_part, distr_vector, send, lock, unlock,
}

-- `m[key].push_back(x)`.
abbrev pub push_back : {A : Type 0} → ℕ → A → Map (List A) → Map (List A)
push_back key x m = assign key (value_or [] (m key) ++ (x ∷ [])) m

-- One round of the loop of `handleGetResultPartsMessage`; the flag is false for its early return.
-- The size goes to `sendResultPart` as an `int`.
unfoldable pub serve_part : Server → ℕ → ℕ → ReqPart → Result (Bool × Server)
serve_part s src forward_to part = get_part_data s.parts part.resid >>= λ found. elim found [
  | none ↦
      let request : PendingResultRequest = record {
        offset = part.offset;
        size = part.size;
        dst = src;
      } in
      ok (
        true,
        record s {
          pending_result_requests = push_back part.resid request s.pending_result_requests;
        },
      )
  | some (res, data_size) ↦
      if ltb data_size (size_add part.offset part.size)
      then ok (false, s)
      else ok (true, send s (result_part forward_to (slice part.offset (to_int part.size) res)))
]

unfoldable pub serve_parts : Server → ℕ → ℕ → List ReqPart → Result (Bool × Server)
serve_parts s src forward_to [] = ok (true, s)
serve_parts s src forward_to (part ∷ parts) = serve_part s src forward_to part >>= λ (more, s').
    if more then serve_parts s' src forward_to parts else ok (false, s')

-- `handleGetResultPartsMessage`: the early return leaves the mutex locked.
unfoldable pub handle_get_result_parts : Server → ℕ → ℕ → List ReqPart → Result Server
unfolding serve_parts
handle_get_result_parts s src forward_to parts = do
  s1 ← lock s
  (finished, s2) ← serve_parts s1 src forward_to parts
  ok (if finished then unlock s2 else s2)

-- The loop of `checkDvPartRequired`. It neither tests the pointer nor the bounds: to follow the
-- null pointer or to read past the buffer is a fault.
unfoldable pub send_pending : Server → ℕ → List PendingResultRequest → Result Server
send_pending s key [] = ok s
send_pending s key (r ∷ rs) = get_part_data s.parts key >>= λ found. elim found [
  | none ↦ fault null_pointer
  | some (res, data_size) ↦
      if ltb data_size (size_add r.offset r.size)
      then fault out_of_bounds
      else send_pending (send s (result_part r.dst (slice r.offset (to_int r.size) res))) key rs
]

-- `checkDvPartRequired`: the requests that wait for the part are answered, and stay in the map.
unfoldable pub check_dv_part_required : Server → ℕ → Result Server
unfolding send_pending
check_dv_part_required s key = elim (s.pending_result_requests key) [
  | none ↦ ok s
  | some rs ↦ lock s >>= λ s1. send_pending s1 key rs >>= λ s2. ok (unlock s2)
]

-- `handleStoreResultMessage`. The message keeps the receive buffer that it lies in.
unfoldable pub handle_store_result : Server → ℕ → Bytes → Result Server
handle_store_result s resid bytes = do
  s1 ← lock s
  let msg : StoredMessage = record { resid = resid; data_size = length bytes; payload = bytes }
  parts ← store_part_message s1.parts resid msg
  check_dv_part_required (unlock (record s1 { parts = parts })) resid

-- `handleReleaseResultPartMessage`.
unfoldable pub handle_release_result_part : Server → ℕ → Result Server
handle_release_result_part s resid = do
  s1 ← lock s
  parts ← remove_part s1.parts resid
  ok (unlock (record s1 { parts = parts }))

-- `handleStoreResultPartMessage`: a chunk, and the answers that its part allows once it is whole.
unfoldable pub handle_store_result_part : Server → StoreResultPartMessage → Result Server
handle_store_result_part s msg = do
  s1 ← lock s
  (remaining, parts) ← add_data s1.parts msg.resid msg.bytes msg.offset
  let s2 = unlock (record s1 { parts = parts })
  if remaining == 0 then check_dv_part_required s2 msg.resid else ok s2

-- The loop of `handleDistributeVectorMessage` from process `i` on, with the next local key.
unfoldable pub register_blocks :
    ℕ → ℕ → ℕ → ℕ → ℕ → List ℕ → VectorDistribution → Result (ℕ × VectorDistribution)
register_blocks n elem_size p next i [] dv = ok (next, dv)
register_blocks n elem_size p next i (pid ∷ pids) dv =
    let (offset, end) = div_range n i p in
    let size = size_sub end offset in
    register_part dv i (record {
      pid = pid;
      resid = next;
      size = size_mul size elem_size;
      offset = size_mul offset elem_size;
    })
    >>= λ dv'. register_blocks n elem_size p (int_sub next 1) (i + 1) pids dv'

-- `handleDistributeVectorMessage`.
unfoldable pub handle_distribute_vector : Server → ℕ → ℕ → ℕ → Result Server
unfolding register_blocks
handle_distribute_vector s src n elem_size = do
  let p = length s.pids
  (next, dv) ←
      register_blocks n elem_size p s.next_result_store_local_key 0 s.pids (vector_distribution p)
  ok (send (record s { next_result_store_local_key = next }) (distr_vector src dv))
