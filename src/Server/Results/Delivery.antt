-- ===== src/Server/Results/Delivery.antt =====
-- What happens when a part arrives that other processes have asked for.
use activebsp.Base.{
  ◌==◌, false, refl, ℕ, ◌+◌, ◌≤◌, ◌<◌, ◌≡◌, sym, ap, true, false, none, some, List, [], ◌∷◌, ◌++◌,
  map, append_assoc, append-nil, arith, All, length, slice, int_min, value_or, ok, Option-cases,
  inl, inr, assign,
}
use activebsp.Store.DataStore.{Bytes, DataStore, get_part_data, store_part_message, message_store}
use activebsp.Store.DataStore.Invariant.{IsValid}
use activebsp.Server.State.{PendingResultRequest, Server, Sent, result_part, send}
use activebsp.Server.Results.{send_pending, check_dv_part_required, handle_store_result}

-- The range that a kept request asks for.
abbrev pub delivery : Bytes → PendingResultRequest → Sent
delivery bytes r = result_part r.dst (slice r.offset r.size bytes)

abbrev pub LiesIn : Bytes → PendingResultRequest → Type 0
LiesIn bytes r = r.offset + r.size ≤ length bytes

send_pending_lem :
    (s : Server) (key : ℕ) (bytes : Bytes) (rs : List PendingResultRequest)
    → get_part_data s.parts key ≡ ok (some (bytes, length bytes))
    → length bytes < int_min
    → All (LiesIn bytes) rs
    → send_pending s key rs ≡ ok (record s { sent = s.sent ++ map (delivery bytes) rs })
unfolding send_pending
send_pending_lem s key bytes [] e small b =
    ap (λ out. ok (record s { sent = out })) (sym (append-nil s.sent))
send_pending_lem s key bytes (r ∷ rs) e small (b, bs) =
    let next : Server = send s (delivery bytes r) in
    let rest : send_pending next key rs
        ≡ ok (record next { sent = next.sent ++ map (delivery bytes) rs }) =
      send_pending_lem next key bytes rs e small bs in
    ground
      (arith, e, b, rest, append_assoc s.sent (delivery bytes r ∷ []) (map (delivery bytes) rs))

-- The data store with a part that came in a message.
abbrev with_message : DataStore → ℕ → Bytes → DataStore
with_message d key bytes = record d {
  result_msg_store =
      assign key (record { resid = key; data_size = length bytes; payload = bytes })
        d.result_msg_store;
  dv_parts =
      assign key
        (record { key = key; size = length bytes; location = message_store; remaining_bytes = 0 })
        d.dv_parts;
}

get_part_data-with_message :
    (d : DataStore) (key : ℕ) (bytes : Bytes)
    → get_part_data (with_message d key bytes) key ≡ ok (some (bytes, length bytes))
unfolding get_part_data
get_part_data-with_message d key bytes = ground arith

with_message-elsewhere :
    (d : DataStore) (key k : ℕ) (bytes : Bytes)
    → (k ≡ key → ⊥)
    → ((with_message d key bytes).dv_parts k ≡ d.dv_parts k)
      × ((with_message d key bytes).result_msg_store k ≡ d.result_msg_store k)
with_message-elsewhere d key k bytes other =
    let elsewhere : (k == key) ≡ false = ground (arith, other) in
    (rw elsewhere refl, rw elsewhere refl)

-- A part that arrives under a free key of a valid store, with the mutex free, is stored, and every
-- request kept for it gets its range, in the order of the requests, if the ranges lie in the part
-- and the part has fewer than 2 ^ 31 bytes. The mutex is free again. Nothing else of the server
-- changes, and nothing of the store at the other keys: the parts there, their messages and the
-- vectors are as before, and the requests that were answered are still kept.
pub handle_store_result_lem :
    (s : Server) (key : ℕ) (bytes : Bytes)
    → IsValid s.parts
    → s.locked ≡ false
    → s.parts.dv_parts key ≡ none
    → length bytes < int_min
    → All (LiesIn bytes) (value_or [] (s.pending_result_requests key))
    → (d : DataStore) × (handle_store_result s key bytes
        ≡ ok (record s {
          parts = d;
          sent = s.sent ++ map (delivery bytes) (value_or [] (s.pending_result_requests key));
        }))
      × (get_part_data d key ≡ ok (some (bytes, length bytes)))
      × (d.result_vector_store ≡ s.parts.result_vector_store)
      × ((k : ℕ)
          → (k ≡ key → ⊥)
          → (d.dv_parts k ≡ s.parts.dv_parts k)
            × (d.result_msg_store k ≡ s.parts.result_msg_store k))
unfolding handle_store_result store_part_message check_dv_part_required
handle_store_result_lem s key bytes v free fresh small b =
    let d : DataStore = with_message s.parts key bytes in
    let got : get_part_data d key ≡ ok (some (bytes, length bytes)) =
      get_part_data-with_message s.parts key bytes in
    (
      d,
      elim (Option-cases (s.pending_result_requests key)) [
        | inl e ↦ ground (arith, e, v.fits key, append-nil s.sent)
        | inr (rs, e) ↦
            let locked : Server = record s { parts = d; locked = true } in
            ground
              (arith, e, v.fits key, send_pending_lem locked key bytes rs got small (rw e at b))
      ],
      got,
      refl,
      λ k other. with_message-elsewhere s.parts key k bytes other,
    )
