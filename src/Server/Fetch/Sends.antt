-- ===== src/Server/Fetch/Sends.antt =====
-- The effect of `fetchDv` of ActorServer.cpp on the server's state.
use activebsp.Base.{
  ℕ, ◌+◌, ◌≡◌, refl, sym, ◌∙◌, false, Option, none, some, List, [], ◌∷◌, ◌++◌, append_assoc,
  append-nil, arith, Result, ok, >>=-eq-ok, inl, inr, Option-cases, drop, take, erase, not, ◌||◌,
  ◌==◌, length, if◌then◌else◌,
}
use activebsp.Distribution.BlockRange.{div_range}
use activebsp.Distribution.VectorDistribution.{Part, VectorDistribution, all_parts}
use activebsp.Distribution.Ranges.{misses, wanted_size}
use activebsp.Store.DataStore.{Bytes, get_part_data}
use activebsp.Message.{Message, FetchMessage, fetch, store_result_part}
use activebsp.Server.State.{Server, IntraComm, Sent, actor_message, send, is_head, intra_comm}
use activebsp.Server.Fetch.{
  DvCodec, send_to_all, fetch_part, fetch_parts, fetch_blocks, agree_on_dv, fetch_dv,
  check_future_required,
}

-- `s'` is `s` with messages sent.
abbrev pub Sends : Server → Server → Type 0
Sends s s' = (out : List Sent) × (s' ≡ record s { sent = s.sent ++ out })

pub Sends-refl : (s : Server) → Sends s s
Sends-refl s = ([], λ i. record s { sent = sym (append-nil s.sent) i })

pub Sends-trans : (s : Server) {t u : Server} → Sends s t → Sends t u → Sends s u
Sends-trans s (a, p) (b, q) =
    (a ++ b, q ∙ rw p (λ i. record s { sent = append_assoc s.sent a b i }))

pub send_to_all-Sends : (s : Server) (pids : List ℕ) (m : Message) → Sends s (send_to_all s pids m)
send_to_all-Sends s [] m = Sends-refl s
send_to_all-Sends s (pid ∷ pids) m = Sends-trans s (_, refl) (send_to_all-Sends (send s _) pids m)

-- What one round of `fetchDv` sends.
abbrev pub found_out : ℕ → ℕ → ℕ → ℕ → Result (Option (Bytes × ℕ)) → List Sent
found_out pid key size req_size (ok (some (res, data_size))) =
    actor_message pid (
      store_result_part
        (record { resid = key; offset = 0; full_data_size = size; bytes = take req_size res }))
    ∷ []
found_out pid key size req_size _ = []

abbrev pub part_out : Server → ℕ → ℕ → ℕ → ℕ → ℕ → Part → List Sent
part_out s pid key size ioffset iend part =
    if not (s.pid == part.pid) || misses ioffset iend part
    then []
    else found_out pid key size (wanted_size ioffset iend part) (get_part_data s.parts part.resid)

fetch_part-Sends :
    (s : Server) (pid key size ioffset iend : ℕ) (part : Part) {s' : Server}
    → s.locked ≡ false
    → fetch_part s pid key size ioffset iend part ≡ ok s'
    → Sends s s'
unfolding fetch_part
fetch_part-Sends s pid key size ioffset iend part free h =
    (part_out s pid key size ioffset iend part, ground (arith, append-nil s.sent))

Sends-free : (s t : Server) → Sends s t → s.locked ≡ false → t.locked ≡ false
Sends-free s t (out, e) free = ground (arith, e)

fetch_parts-Sends :
    (s : Server) (pid key size ioffset iend : ℕ) (parts : List Part) {s' : Server}
    → s.locked ≡ false
    → fetch_parts s pid key size ioffset iend parts ≡ ok s'
    → Sends s s'
unfolding fetch_parts
fetch_parts-Sends s pid key size ioffset iend [] free h = ([], ground (arith, append-nil s.sent))
fetch_parts-Sends s pid key size ioffset iend (part ∷ parts) free h =
    let (t, first, rest) =
      >>=-eq-ok (fetch_part s pid key size ioffset iend part)
        (λ t. fetch_parts t pid key size ioffset iend parts) h in
    let one : Sends s t = fetch_part-Sends s pid key size ioffset iend part free first in
    Sends-trans s one
      (fetch_parts-Sends t pid key size ioffset iend parts (Sends-free s t one free) rest)

fetch_blocks-Sends :
    (s : Server) (size npids i : ℕ) (pids keys : List ℕ) (parts : List Part) {s' : Server}
    → s.locked ≡ false
    → fetch_blocks s size npids i pids keys parts ≡ ok s'
    → Sends s s'
unfolding fetch_blocks
fetch_blocks-Sends s size npids i [] keys parts free h = ([], ground (arith, append-nil s.sent))
fetch_blocks-Sends s size npids i (pid ∷ pids) [] parts free h = cc
fetch_blocks-Sends s size npids i (pid ∷ pids) (key ∷ keys) parts free h =
    let r = div_range size i npids in
    let (t, first, rest) =
      >>=-eq-ok (fetch_parts s pid key size r.0 r.1 parts)
        (λ t. fetch_blocks t size npids (i + 1) pids keys parts) h in
    let one : Sends s t = fetch_parts-Sends s pid key size r.0 r.1 parts free first in
    Sends-trans s one
      (fetch_blocks-Sends t size npids (i + 1) pids keys parts (Sends-free s t one free) rest)

agree_on_dv-Sends :
    (codec : DvCodec) (heard : VectorDistribution) (s : Server) (msg : FetchMessage)
    (comm : IntraComm) {dv : VectorDistribution} {t : Server}
    → agree_on_dv codec heard s msg comm ≡ ok (dv, t)
    → Sends s t
unfolding agree_on_dv
agree_on_dv-Sends codec heard s msg comm h =
    let (out, e) = send_to_all-Sends s (drop 1 s.pids) (fetch msg) in
    let (none_sent, f) = Sends-refl s in
    (if is_head comm then out else none_sent, ground (arith, e, f))

module _ (codec : DvCodec) (heard : VectorDistribution) (s : Server) where
  -- On a server whose mutex is free, a `fetchDv` that returns has sent messages and changed nothing
  -- else: the futures, the parts, the requests that wait and the mutex are as before.
  pub fetch_dv-Sends :
      (msg : FetchMessage) {s' : Server}
      → s.locked ≡ false
      → fetch_dv codec heard s msg ≡ ok s'
      → Sends s s'
  unfolding fetch_dv
  fetch_dv-Sends msg free h =
      let (comm, found, rest) = >>=-eq-ok (intra_comm s) _ h in
      let (r, chosen, sent) =
        >>=-eq-ok (agree_on_dv codec heard s msg comm)
          (λ (dv, t).
            fetch_blocks t msg.dv_size (length msg.pids) 0 msg.pids msg.keys (all_parts dv))
          rest in
      let one : Sends s r.1 = agree_on_dv-Sends codec heard s msg comm chosen in
      Sends-trans s one (
        fetch_blocks-Sends r.1 msg.dv_size (length msg.pids) 0 msg.pids msg.keys (all_parts r.0)
          (Sends-free s r.1 one free) sent)

  -- What `checkFutureRequired` adds to that: the request for the fetch is taken off.
  pub check_future_required-Sends :
      (key : ℕ) {s' : Server}
      → s.locked ≡ false
      → check_future_required codec heard s key ≡ ok s'
      → (out : List Sent) × (s' ≡ record s { sent = s.sent ++ out; asked_fetch = s'.asked_fetch })
        × ((k : ℕ) → s'.asked_fetch k ≡ (if k == key then none else s.asked_fetch k))
  unfolding check_future_required
  check_future_required-Sends key free h = elim (Option-cases (s.asked_fetch key)) [
    | inl e ↦ ([], ground (arith, e, append-nil s.sent), λ k. ground (arith, e))
    | inr (msg, e) ↦
        let (t, fetched, rest) =
          >>=-eq-ok (fetch_dv codec heard s msg)
            (λ t. ok (record t { asked_fetch = erase key t.asked_fetch }))
            (rw (e, check_future_required) at h) in
        let (out, f) = fetch_dv-Sends msg free fetched in
        (out, ground (arith, f, rest), λ k. ground (arith, f, rest))
  ]
