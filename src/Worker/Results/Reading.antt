-- ===== src/Worker/Results/Reading.antt =====
-- Results that the processes of an actor register, gathered in one distribution and read.
use native.Mathlib.Decide.{dec_lt}
use activebsp.Base.{
  ℕ, zero, suc, ◌+◌, ◌-◌, ◌*◌, ◌≤◌, ◌<◌, ◌≡◌, refl, subst, sym, ap, ◌∙◌, inl, inr, false, ==_refl,
  ◌==◌, arith, List, [], ◌∷◌, ◌++◌, length, take, drop, slice, All, Any, length-append,
  append_assoc, append-nil, take-append_le, take_all, drop-append_ge, int_min, int_add, ok,
}
use activebsp.Distribution.VectorDistribution.{
  Part, VectorDistribution, vector_distribution, register_part, all_parts,
}
use activebsp.Store.DataStore.{Bytes}
use activebsp.Store.Futures.{take_key}
use activebsp.Message.{store_result}
use activebsp.Server.State.{Sent, actor_message}
use activebsp.Communicator.{dv_get_part}
use activebsp.Communicator.Answers.{IsHeld, HasByte}
use activebsp.Communicator.Reads.{dv_get_part_lem}
use activebsp.Communicator.Sharing.{delivered}
use activebsp.Worker.Results.{Results, register_single_part_result, dv_bytes, gather_distr_parts}
use activebsp.Worker.Results.Gather.{collected, AreReady, gather_distr_parts_lem}

-- The processes, by their number in the actor, and what each of them computed.
module _ (r : ℕ → Results) (chunk : ℕ → Bytes) where
  -- The results of the processes below `n`, one after another.
  abbrev pub joined : ℕ → Bytes
  joined zero = []
  joined (suc n) = joined n ++ chunk n

  -- Where the result of a process begins.
  abbrev pub begin_of : ℕ → ℕ
  begin_of s = length (joined s)

  abbrev pub part_of : ℕ → Part
  part_of s = record {
    pid = (r s).pid;
    resid = (r s).next_key;
    size = length (chunk s);
    offset = begin_of s;
  }

  -- A process that has registered its result.
  abbrev pub after : ℕ → Results
  after s = record {
    pid = (r s).pid;
    next_key = int_add (r s).next_key 1;
    cur_vector_distribution = record { nelem = 1; parts = part_of s ∷ [] };
    sent = (r s).sent ++ (actor_message (r s).pid (store_result (r s).next_key (chunk s)) ∷ []);
  }

  -- The messages by which the processes from `s` on store their results.
  abbrev pub stores : ℕ → ℕ → List Sent
  stores s zero = []
  stores s (suc left) =
      actor_message (r s).pid (store_result (r s).next_key (chunk s)) ∷ stores (suc s) left

  abbrev pub registered : ℕ → VectorDistribution
  registered s = (after s).cur_vector_distribution

  register_single_part_result_lem :
      (s : ℕ) → register_single_part_result (r s) (chunk s) (begin_of s) ≡ ok (after s)
  unfolding register_single_part_result take_key vector_distribution register_part
  register_single_part_result_lem s = refl

  joined_split : (n i : ℕ) → i < n → (tail : Bytes) × (joined n ≡ joined i ++ (chunk i ++ tail))
  joined_split zero i h = absurd (omega arith)
  joined_split (suc n) i h = elim (dec_lt i n) [
    | yes lt ↦
        let (tail, e) = joined_split n i lt in
        (
          tail ++ chunk n,
          ap (λ xs. xs ++ chunk n) e
              ∙ append_assoc (joined i) (chunk i ++ tail) (chunk n)
              ∙ ap (λ xs. joined i ++ xs) (append_assoc (chunk i) tail (chunk n)),
        )
    | no past ↦
        let last : n ≡ i = omega arith in
        (
          [],
          ap (λ k. joined k ++ chunk k) last
              ∙ ap (λ xs. joined i ++ xs) (sym (append-nil (chunk i))),
        )
  ]

  part_inside :
      (n i : ℕ)
      → i < n
      → (begin_of i + length (chunk i) ≤ length (joined n))
        × (slice (begin_of i) (length (chunk i)) (joined n) ≡ chunk i)
  part_inside n i h =
      let (tail, e) = joined_split n i h in
      let size : length (joined n) ≡ begin_of i + (length (chunk i) + length tail) =
        ap length e
        ∙ length-append (joined i) (chunk i ++ tail)
        ∙ ap (λ m. begin_of i + m) (length-append (chunk i) tail) in
      let nothing : begin_of i - length (joined i) ≡ 0 = omega arith in
      (
        omega (arith, size),
        ap (slice (begin_of i) (length (chunk i))) e
            ∙ ap (take (length (chunk i))) (
                drop-append_ge (begin_of i) (joined i) (chunk i ++ tail) (omega arith)
                ∙ ap (λ m. drop m (chunk i ++ tail)) nothing)
            ∙ take-append_le (length (chunk i)) (chunk i) tail (omega arith)
            ∙ take_all (length (chunk i)) (chunk i) (omega arith),
      )

  -- The processes of the actor follow each other in the world.
  module _ (first : ℕ) (rank : (s : ℕ) → (r s).pid ≡ first + s) where
    delivered-stores :
        (s left i : ℕ)
        → s ≤ i
        → i < s + left
        → delivered (stores s left) (r i).pid (r i).next_key ≡ chunk i
    delivered-stores s zero i lo hi = absurd (omega arith)
    delivered-stores s (suc left) i lo hi = elim (dec_lt s i) [
      | yes lt ↦
          let other : ((r s).pid == (r i).pid) ≡ false = ground (arith, rank s, rank i) in
          rw other (delivered-stores (suc s) left i (omega arith) (omega arith))
      | no past ↦
          let same : s ≡ i = omega arith in
          subst (λ j. delivered (stores s (suc left)) (r j).pid (r j).next_key ≡ chunk j) same
            (rw (==_refl (r s).pid, ==_refl (r s).next_key) refl)
    ]

    parts-IsHeld :
        (n s left : ℕ)
        → s + left ≤ n
        → All (IsHeld (delivered (stores 0 n)) (joined n)) (collected registered s left)
    parts-IsHeld n s zero h = tt
    parts-IsHeld n s (suc left) h =
        let (inside, bytes) = part_inside n s (omega arith) in
        (
          (inside, delivered-stores 0 n s (omega arith) (omega arith) ∙ sym bytes),
          parts-IsHeld n (suc s) left (omega arith),
        )

    parts_cover :
        (stored : ℕ → ℕ → Bytes) (whole : Bytes) (s left x : ℕ)
        → begin_of s ≤ x
        → x < begin_of (s + left)
        → Any (HasByte stored whole x) (collected registered s left)
    parts_cover stored whole s zero x lo hi =
        let same : s + 0 ≡ s = omega arith in absurd (omega (arith, ap begin_of same))
    parts_cover stored whole s (suc left) x lo hi = elim (dec_lt x (begin_of (suc s))) [
      | yes lt ↦ inl (lo, omega (arith, length-append (joined s) (chunk s)))
      | no past ↦
          let same : s + suc left ≡ suc s + left = omega arith in
          inr (
            parts_cover stored whole (suc s) left x (omega arith) (omega (arith, ap begin_of same)))
    ]

    length-collected : (s left : ℕ) → length (collected registered s left) ≡ left
    length-collected s zero = refl
    length-collected s (suc left) = ap suc (length-collected (suc s) left)

    -- Each of `n` processes, which follow each other in the world, computes a piece of a vector and
    -- registers it as its single part, at the place where the pieces before it end. The vector is
    -- shorter than 2 ^ 31 bytes, and the gets copy the buffers of the processes. Then nothing fails,
    -- what is gathered is the buffer of one distribution, and once the messages that store the pieces
    -- are delivered, `dv_get_part` along it gives to any process, for any range, the bytes of the
    -- pieces one after another.
    pub results_gathered_then_read :
        (bsp_get : ℕ → ℕ → ℕ → Bytes) (n : ℕ)
        → ((pid offset size : ℕ)
            → bsp_get pid offset size ≡ slice offset size (dv_bytes (registered pid)))
        → length (joined n) < int_min
        → (dv : VectorDistribution) × ((s : ℕ)
            → register_single_part_result (r s) (chunk s) (begin_of s) ≡ ok (after s))
          × (gather_distr_parts bsp_get 1 n ≡ dv_bytes dv)
          × ((pid offset : ℕ) (out_buf : Bytes)
              → offset + length out_buf ≤ length (joined n)
              → dv_get_part (delivered (stores 0 n)) pid dv offset out_buf
                ≡ ok (slice offset (length out_buf) (joined n)))
    results_gathered_then_read bsp_get n copies small =
        let parts = collected registered 0 n in
        let dv : VectorDistribution = record { nelem = 1 * n; parts = parts } in
        let all : all_parts dv ≡ parts =
          take_all (1 * n) parts (omega (arith, length-collected 0 n)) in
        let total : 0 + n ≡ n = omega arith in
        let ready : AreReady registered 1 n = record {
          count = λ s h. refl;
          near = λ s h. (omega (arith, (part_inside n s h).0), tt);
        } in
        (
          dv,
          register_single_part_result_lem,
          gather_distr_parts_lem registered bsp_get 1 n copies ready,
          λ pid offset out_buf fits.
              dv_get_part_lem (delivered (stores 0 n)) (joined n) pid offset dv out_buf small fits
                (subst (All (IsHeld (delivered (stores 0 n)) (joined n))) (sym all)
                  (parts-IsHeld n 0 n (omega arith)))
                (λ i h.
                  subst (Any (HasByte (delivered (stores 0 n)) (joined n) (offset + i))) (sym all) (
                    parts_cover (delivered (stores 0 n)) (joined n) 0 n (offset + i) (omega arith)
                      (omega (arith, ap begin_of total)))),
        )
