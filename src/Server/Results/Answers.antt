-- ===== src/Server/Results/Answers.antt =====
-- What `handleGetResultPartsMessage` answers, what it keeps for later, and what it does on a request
-- out of bounds.
use activebsp.Base.{
  ℕ, ◌+◌, ◌≤◌, ◌<◌, ◌≡◌, refl, sym, ap, ◌∙◌, true, false, Option, none, some, List, [], ◌∷◌, ◌++◌,
  append_assoc, append-nil, arith, All, length, slice, Map, int_min, size_mod, Result, ok, fault,
  deadlock, Option-cases, inl, inr,
}
use activebsp.Store.DataStore.{Bytes, DataStore, get_part_data}
use activebsp.Store.DataStore.Invariant.{IsValid, get_part_data_lem}
use activebsp.Message.{ReqPart, StoreResultPartMessage}
use activebsp.Server.State.{PendingResultRequest, Server, Sent, result_part}
use activebsp.Server.Results.{
  push_back, serve_part, serve_parts, handle_get_result_parts, handle_store_result,
  handle_release_result_part, handle_store_result_part,
}

-- The bytes of a part that is there and complete.
abbrev complete_bytes : Result (Option (Bytes × ℕ)) → Option Bytes
complete_bytes (ok (some (bytes, size))) = some bytes
complete_bytes _ = none

unfoldable pub available : DataStore → ℕ → Option Bytes
available d key = complete_bytes (get_part_data d key)

abbrev with_size : Option Bytes → Option (Bytes × ℕ)
with_size none = none
with_size (some bytes) = some (bytes, length bytes)

-- On a valid store `getPartData` gives the available bytes with their number.
pub get_part_data-available :
    (d : DataStore) (key : ℕ) → IsValid d → get_part_data d key ≡ ok (with_size (available d key))
unfolding available
get_part_data-available d key v = elim (get_part_data_lem d key v) [
  | inl (e, why) ↦ rw e refl
  | inr (p, buf, found, done, e, size, why) ↦ rw (e, ← size) refl
]

-- A range that lies in the bytes, which an `int` can count.
abbrev pub InBytes : Option Bytes → ReqPart → Type 0
InBytes none part = Unit {0}
InBytes (some bytes) part = (part.offset + part.size ≤ length bytes) × (length bytes < int_min)

-- The part is not available yet, or the range that is asked for lies in it.
abbrev pub InBounds : DataStore → ReqPart → Type 0
InBounds d part = InBytes (available d part.resid) part

abbrev answer : ℕ → ReqPart → Option Bytes → List Sent
answer forward_to part none = []
answer forward_to part (some bytes) =
    result_part forward_to (slice part.offset part.size bytes) ∷ []

-- The ranges of the parts that are available, in the order in which they are asked for.
abbrev pub answers : DataStore → ℕ → List ReqPart → List Sent
answers d forward_to [] = []
answers d forward_to (part ∷ parts) =
    answer forward_to part (available d part.resid) ++ answers d forward_to parts

abbrev pub Pending : Type 0
Pending = Map (List PendingResultRequest)

abbrev wait_for : ℕ → ReqPart → Option Bytes → Pending → Pending
wait_for src part none m =
    push_back part.resid (record { offset = part.offset; size = part.size; dst = src }) m
wait_for src part (some bytes) m = m

-- The requests for the others are kept, with the asking process as their destination.
abbrev pub waits : DataStore → ℕ → List ReqPart → Pending → Pending
waits d src [] m = m
waits d src (part ∷ parts) m = waits d src parts (wait_for src part (available d part.resid) m)

serve_part_lem :
    (s : Server) (src forward_to : ℕ) (part : ReqPart)
    → IsValid s.parts
    → InBounds s.parts part
    → serve_part s src forward_to part
      ≡ ok (
        true,
        record s {
          sent = s.sent ++ answer forward_to part (available s.parts part.resid);
          pending_result_requests =
              wait_for src part (available s.parts part.resid) s.pending_result_requests;
        },
      )
unfolding serve_part
serve_part_lem s src forward_to part v b = elim (Option-cases (available s.parts part.resid)) [
  | inl e ↦ ground (arith, e, get_part_data-available s.parts part.resid v, append-nil s.sent)
  | inr (bytes, e) ↦ ground (arith, b, e, get_part_data-available s.parts part.resid v)
]

-- The server after the loop has served these parts.
abbrev pub served : Server → ℕ → ℕ → List ReqPart → Server
served s src forward_to parts = record s {
  sent = s.sent ++ answers s.parts forward_to parts;
  pending_result_requests = waits s.parts src parts s.pending_result_requests;
}

serve_parts_lem :
    (s : Server) (src forward_to : ℕ) (parts rest : List ReqPart)
    → IsValid s.parts
    → All (InBounds s.parts) parts
    → serve_parts s src forward_to (parts ++ rest)
      ≡ serve_parts (served s src forward_to parts) src forward_to rest
unfolding serve_parts
serve_parts_lem s src forward_to [] rest v b =
    ap (λ out. serve_parts (record s { sent = out }) src forward_to rest) (sym (append-nil s.sent))
serve_parts_lem s src forward_to (part ∷ parts) rest v (b, bs) =
    rw (serve_part_lem s src forward_to part v b) (
      serve_parts_lem
        (record s {
          sent = s.sent ++ answer forward_to part (available s.parts part.resid);
          pending_result_requests =
              wait_for src part (available s.parts part.resid) s.pending_result_requests;
        })
        src forward_to parts rest v bs
      ∙ ap
          (λ out.
            serve_parts
              (record s {
                sent = out;
                pending_result_requests =
                    waits s.parts src (part ∷ parts) s.pending_result_requests;
              })
              src forward_to rest)
          (append_assoc s.sent (answer forward_to part (available s.parts part.resid))
            (answers s.parts forward_to parts)))

module _ (s : Server) (src forward_to : ℕ) (parts : List ReqPart) (v : IsValid s.parts)
    (free : s.locked ≡ false) (b : All (InBounds s.parts) parts) where
  -- On a valid store with the mutex free, a request whose ranges lie in their parts, where those are
  -- available, and these parts have fewer than 2 ^ 31 bytes, is handled without fault: the ranges of the available parts are sent to the process
  -- to forward to, in order, the requests for the others are kept for the asking process, nothing
  -- else changes and the mutex is free again.
  pub handle_get_result_parts_lem :
      handle_get_result_parts s src forward_to parts ≡ ok (served s src forward_to parts)
  unfolding handle_get_result_parts serve_parts
  handle_get_result_parts_lem =
      let locked : Server = record s { locked = true } in
      let loop : serve_parts locked src forward_to (parts ++ [])
          ≡ ok (true, served locked src forward_to parts) =
        serve_parts_lem locked src forward_to parts [] v b in
      ground (arith, rw (append-nil parts) at loop)

  -- On a valid store with the mutex free, a range that ends past the end of an available part, and
  -- below 2 ^ 64, after ranges that lie in their parts of fewer than 2 ^ 31 bytes or whose parts are
  -- not available, ends the handler with the mutex still locked: every later request for parts, whole part, chunk or
  -- release of a part then blocks for ever.
  pub out_of_range_deadlocks :
      (bad : ReqPart) (rest : List ReqPart) (bytes : Bytes)
      → available s.parts bad.resid ≡ some bytes
      → length bytes < bad.offset + bad.size
      → bad.offset + bad.size < size_mod
      → (s' : Server) × (handle_get_result_parts s src forward_to (parts ++ (bad ∷ rest)) ≡ ok s')
        × ((src to : ℕ) (more : List ReqPart)
            → handle_get_result_parts s' src to more ≡ fault deadlock)
        × ((key : ℕ) (bytes : Bytes) → handle_store_result s' key bytes ≡ fault deadlock)
        × ((chunk : StoreResultPartMessage) → handle_store_result_part s' chunk ≡ fault deadlock)
        × ((key : ℕ) → handle_release_result_part s' key ≡ fault deadlock)
  unfolding handle_get_result_parts serve_parts serve_part handle_store_result
      handle_store_result_part handle_release_result_part
  out_of_range_deadlocks bad rest bytes e past small =
      let locked : Server = record s { locked = true } in
      let loop : serve_parts locked src forward_to (parts ++ (bad ∷ rest))
          ≡ serve_parts (served locked src forward_to parts) src forward_to (bad ∷ rest) =
        serve_parts_lem locked src forward_to parts (bad ∷ rest) v b in
      (
        served locked src forward_to parts,
        ground (arith, loop, get_part_data-available s.parts bad.resid v),
        λ src' to more. refl,
        λ key bytes'. refl,
        λ chunk. refl,
        λ key. refl,
      )
