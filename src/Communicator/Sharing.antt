-- ===== src/Communicator/Sharing.antt =====
-- A vector that is shared out by `block_distribute` of MPIActorCommunicator.cpp and then read.
use native.Mathlib.Nat.{mul-le-mul_right, add-mul, zero-mul}
use native.Mathlib.Decide.{dec_lt}
use activebsp.Base.{
  ℕ, ◌+◌, ◌-◌, ◌*◌, ◌≤◌, ◌<◌, ◌≡◌, refl, sym, ap, ◌∙◌, inl, inr, false, ◌&&◌, ◌==◌, ==_refl,
  if◌then◌else◌, List, [], ◌∷◌, arith, length, slice, All, Any, All-map₂, int_min, int_mod, int_sub,
  size_sub, size_mul, ok, ◌++◌, subst,
}
use activebsp.Distribution.BlockRange.{block_begin}
use activebsp.Distribution.BlockRange.Bounds.{
  div_range-block_begin, block_begin_le, block_begin_ends,
}
use activebsp.Distribution.VectorDistribution.{Part, VectorDistribution, all_parts}
use activebsp.Store.DataStore.{Bytes}
use activebsp.Message.{store_result}
use activebsp.Server.State.{Server, Sent, actor_message, distr_vector}
use activebsp.Server.Results.{handle_distribute_vector}
use activebsp.Server.Results.Layout.{
  block, blocks, layout, all_parts-layout, handle_distribute_vector_lem,
}
use activebsp.Communicator.{send_blocks, dv_get_part}
use activebsp.Communicator.Answers.{IsHeld, HasByte}
use activebsp.Communicator.Reads.{dv_get_part_lem}

-- The bytes that the messages bring for a key of a process: the first message for it counts, as a
-- part is not stored twice.
abbrev pub delivered : List Sent → ℕ → ℕ → Bytes
delivered [] pid resid = []
delivered (actor_message to (store_result key bytes) ∷ ms) pid resid =
    if (to == pid) && (key == resid) then bytes else delivered ms pid resid
delivered (_ ∷ ms) pid resid = delivered ms pid resid

-- Each part has a greater key than those that follow.
abbrev Falling : List Part → Type 0
Falling [] = Unit {0}
Falling (part ∷ parts) = All (λ q. q.resid < part.resid) parts × Falling parts

abbrev Delivers : Bytes → List Sent → Part → Type 0
Delivers v ms part = delivered ms part.pid part.resid ≡ slice part.offset part.size v

send_blocks-Delivers :
    (v : Bytes) (parts : List Part) → Falling parts → All (Delivers v (send_blocks v parts)) parts
unfolding send_blocks
send_blocks-Delivers v [] h = tt
send_blocks-Delivers v (part ∷ parts) (below, falling) = (
  rw (==_refl part.pid, ==_refl part.resid) refl,
  All-map₂ (Delivers v (send_blocks v parts)) (λ q. q.resid < part.resid)
      (Delivers v (send_blocks v (part ∷ parts))) parts
      (λ q old lt.
        let other : (part.resid == q.resid) ≡ false = ground arith in ground (arith, other, old))
      (send_blocks-Delivers v parts falling) below,
)

-- Scaled bounds of a block, without a wrap.
size_mul-size_sub :
    (o e n elem_size : ℕ)
    → o ≤ e
    → e ≤ n
    → n < int_min
    → n * elem_size < int_min
    → (size_mul o elem_size ≡ o * elem_size)
      × (size_mul o elem_size + size_mul (size_sub e o) elem_size ≡ e * elem_size)
size_mul-size_sub o e n elem_size h k small fits =
    let below : e * elem_size ≤ n * elem_size = mul-le-mul_right elem_size k in
    let first : o * elem_size ≤ e * elem_size = mul-le-mul_right elem_size h in
    let width : size_sub e o ≡ e - o = omega arith in
    let back : e - o + o ≡ e = omega arith in
    let whole : (e - o) * elem_size + o * elem_size ≡ e * elem_size =
      sym (add-mul (e - o) o elem_size) ∙ ap (λ (m : ℕ). m * elem_size) back in
    (omega arith, rw width (omega (arith, below, first, whole)))

module _ (n elem_size p : ℕ) (many : p < int_min) (small : n < int_min)
    (fits : n * elem_size < int_min) where
  block_lem :
      (next i pid : ℕ)
      → i < p
      → ((block n elem_size p next i pid).offset ≡ block_begin n p i * elem_size)
        × ((block n elem_size p next i pid).offset + (block n elem_size p next i pid).size
            ≡ block_begin n p (i + 1) * elem_size)
        × (block_begin n p (i + 1) * elem_size ≤ n * elem_size)
  block_lem next i pid h =
      let (up, top) = block_begin_le n p i h in
      let (o, e) =
        size_mul-size_sub (block_begin n p i) (block_begin n p (i + 1)) n elem_size up top small
          fits in
      rw (div_range-block_begin n i p h many small) (o, e, mul-le-mul_right elem_size top)

  blocks_inside :
      (next i : ℕ) (pids : List ℕ)
      → i + length pids ≡ p
      → All (λ q. q.offset + q.size ≤ n * elem_size) (blocks n elem_size p next i pids)
  blocks_inside next i [] h = tt
  blocks_inside next i (pid ∷ pids) h =
      let (o, e, le) = block_lem next i pid (omega arith) in
      (omega (arith, e, le), blocks_inside (int_sub next 1) (i + 1) pids (omega arith))

  blocks_below :
      (next i k : ℕ) (pids : List ℕ)
      → length pids ≤ next
      → next < k
      → k ≤ int_mod
      → All (λ q. q.resid < k) (blocks n elem_size p next i pids)
  blocks_below next i k [] h lt le = tt
  blocks_below next i k (pid ∷ pids) h lt le =
      (lt, blocks_below (int_sub next 1) (i + 1) k pids (omega arith) (omega arith) le)

  blocks-Falling :
      (next i : ℕ) (pids : List ℕ)
      → length pids ≤ next
      → next < int_mod
      → Falling (blocks n elem_size p next i pids)
  blocks-Falling next i [] h lt = tt
  blocks-Falling next i (pid ∷ pids) h lt = (
    blocks_below (int_sub next 1) (i + 1) next pids (omega arith) (omega arith) (omega arith),
    blocks-Falling (int_sub next 1) (i + 1) pids (omega arith) (omega arith),
  )

  blocks_cover :
      (stored : ℕ → ℕ → Bytes) (v : Bytes) (next i x : ℕ) (pids : List ℕ)
      → 0 < p
      → i + length pids ≡ p
      → block_begin n p i * elem_size ≤ x
      → x < n * elem_size
      → Any (HasByte stored v x) (blocks n elem_size p next i pids)
  blocks_cover stored v next i x [] some_block h lo hi =
      let (first, last) = block_begin_ends n p some_block in
      let at_end : i ≡ p = omega arith in
      let all : block_begin n p i * elem_size ≡ n * elem_size =
        ap (λ k. block_begin n p k * elem_size) at_end ∙ ap (λ (m : ℕ). m * elem_size) last in
      absurd (omega (arith, all))
  blocks_cover stored v next i x (pid ∷ pids) some_block h lo hi =
      let (o, e, le) = block_lem next i pid (omega arith) in
      elim (dec_lt x (block_begin n p (i + 1) * elem_size)) [
        | yes lt ↦ inl (omega (arith, o), omega (arith, e, lt))
        | no past ↦ inr (
            blocks_cover stored v (int_sub next 1) (i + 1) x pids some_block (omega arith)
              (omega arith) hi)
      ]

-- A vector of `n` elements of `elem_size` bytes is distributed by a server with at least one process
-- and then read. The server answers with one distribution and fails nowhere. Once the messages by
-- which `block_distribute` shares the vector out along it are delivered, `dv_get_part` gives, to any
-- process and for any range of the vector, exactly the bytes of that range. The vector has fewer
-- than 2 ^ 31 elements and bytes, there are fewer than 2 ^ 31 processes, and the local keys, which
-- count down from -1, have not come down to 0.
pub distribute_then_read :
    (s : Server) (src n elem_size : ℕ) (v : Bytes)
    → 0 < length s.pids
    → length s.pids < int_min
    → n < int_min
    → length v ≡ n * elem_size
    → length v < int_min
    → length s.pids ≤ s.next_result_store_local_key
    → s.next_result_store_local_key < int_mod
    → (dv : VectorDistribution) × (s' : Server) × (handle_distribute_vector s src n elem_size
        ≡ ok s')
      × (s'.sent ≡ s.sent ++ (distr_vector src dv ∷ []))
      × ((pid offset : ℕ) (out_buf : Bytes)
          → offset + length out_buf ≤ length v
          → dv_get_part (delivered (send_blocks v (all_parts dv))) pid dv offset out_buf
            ≡ ok (slice offset (length out_buf) v))
distribute_then_read s src n elem_size v some_process many small whole fits keys counted =
    let p = length s.pids in
    let next = s.next_result_store_local_key in
    let dv = layout n elem_size next s.pids in
    let parts = blocks n elem_size p next 0 s.pids in
    let seen : all_parts dv ≡ parts = all_parts-layout n elem_size next s.pids in
    let room : n * elem_size < int_min = omega (arith, whole, fits) in
    let stored = delivered (send_blocks v parts) in
    (
      dv,
      _,
      handle_distribute_vector_lem s src n elem_size,
      refl,
      λ pid offset out_buf inside.
          let held : All (IsHeld stored v) parts =
            All-map₂ (λ q. q.offset + q.size ≤ n * elem_size) (Delivers v (send_blocks v parts))
              (IsHeld stored v) parts (λ q le d. (omega (arith, whole, le), d))
              (blocks_inside n elem_size p many small room next 0 s.pids (omega arith))
              (send_blocks-Delivers v parts
                (blocks-Falling n elem_size p many small room next 0 s.pids keys counted)) in
          let (first, last) = block_begin_ends n p some_process in
          let begin : block_begin n p 0 * elem_size ≡ 0 =
            ap (λ (m : ℕ). m * elem_size) first ∙ zero-mul elem_size in
          let covers : (i : ℕ) → i < length out_buf → Any (HasByte stored v (offset + i)) parts =
            λ i lt.
              blocks_cover n elem_size p many small room stored v next 0 (offset + i) s.pids
                some_process (omega arith) (omega (arith, begin))
                (omega (arith, whole, inside, lt)) in
          dv_get_part_lem (delivered (send_blocks v (all_parts dv))) v pid offset dv out_buf fits
            inside (subst (λ ps. All (IsHeld (delivered (send_blocks v ps)) v) ps) (sym seen) held)
            (λ i lt.
              subst (λ ps. Any (HasByte (delivered (send_blocks v ps)) v (offset + i)) ps)
                (sym seen) (covers i lt)),
    )
