-- ===== src/Server/Results/Pending.antt =====
-- The requests that wait for a part: their answers are all that `checkDvPartRequired` changes.
use activebsp.Base.{
  ℕ, ◌≡◌, refl, sym, ap, subst, ◌∙◌, inl, inr, true, false, Option, none, some, Option-cases,
  Bool-cases, List, [], ◌∷◌, ◌++◌, arith, ok, fault, null_pointer, out_of_bounds, size_add, slice,
  to_int, >>=-eq-ok, ok-injective, ltb, if◌then◌else◌,
}
use activebsp.Store.DataStore.{Bytes, get_part_data}
use activebsp.Server.State.{Server, send, PendingResultRequest, result_part}
use activebsp.Server.Results.{check_dv_part_required, send_pending}
use activebsp.Server.Fetch.Sends.{Sends, Sends-refl, Sends-trans}

send_pending-Sends :
    (s : Server) (key : ℕ) (rs : List PendingResultRequest) {s' : Server}
    → send_pending s key rs ≡ ok s'
    → Sends s s'
unfolding send_pending
send_pending-Sends s key [] h = subst (Sends s) (ok-injective h) (Sends-refl s)
send_pending-Sends s key (r ∷ rs) {s' = s'} h =
    let (found, got, rest) = >>=-eq-ok (get_part_data s.parts key) _ h in
    answered (λ t k. send_pending-Sends t key rs k) found rest
  where
    answered :
        ((t : Server) → send_pending t key rs ≡ ok s' → Sends t s')
        → (found : Option (Bytes × ℕ))
        → elim found [
          | none ↦ fault null_pointer
          | some (res, data_size) ↦
              if ltb data_size (size_add r.offset r.size)
              then fault out_of_bounds
              else send_pending
                  (send s (result_part r.dst (slice r.offset (to_int r.size) res)))
                  key
                  rs
        ]
          ≡ ok s'
        → Sends s s'
    answered later none k = cc
    answered later (some (res, data_size)) k =
        elim (Bool-cases (ltb data_size (size_add r.offset r.size))) [
          | inl past ↦ absurd (ground (arith, k, past))
          | inr fits ↦
              Sends-trans s (_, refl)
                (later (send s (result_part r.dst (slice r.offset (to_int r.size) res)))
                  (rw fits at k))
        ]

-- On a server whose mutex is free, `checkDvPartRequired` sends messages and changes nothing else.
pub check_dv_part_required-Sends :
    (s : Server) (key : ℕ) {s' : Server}
    → s.locked ≡ false
    → check_dv_part_required s key ≡ ok s'
    → Sends s s'
unfolding check_dv_part_required
check_dv_part_required-Sends s key free h = elim (Option-cases (s.pending_result_requests key)) [
  | inl e ↦ subst (Sends s) (ok-injective (rw (e, check_dv_part_required) at h)) (Sends-refl s)
  | inr (rs, e) ↦
      let (t, sent, last) =
        >>=-eq-ok (send_pending (record s { locked = true }) key rs)
          (λ t. ok (record t { locked = false })) (rw (e, check_dv_part_required, free) at h) in
      let (out, same) = send_pending-Sends (record s { locked = true }) key rs sent in
      (
        out,
        sym (ok-injective last) ∙ ap (λ (t : Server). record t { locked = false }) same ∙ λ i.
            record s { locked = sym free i; sent = s.sent ++ out },
      )
]
