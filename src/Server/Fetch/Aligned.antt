-- ===== src/Server/Fetch/Aligned.antt =====
-- What `fetchDv` sends between actors with the same number of processes: the parts of the vector are
-- then the blocks that are asked for.
use activebsp.Base.{
  ℕ, suc, ◌+◌, ◌-◌, ◌/◌, ◌≤◌, ◌<◌, ◌≡◌, refl, ap, ap₂, ◌∙◌, inl, inr, true, false, some, List, [],
  ◌∷◌, ◌++◌, map, append-nil, arith, ok, Bool-cases, not, ◌||◌, ◌==◌, length, take_all, int_min,
  if◌then◌else◌,
}
use native.Mathlib.Decide.{dec_lt}
use activebsp.Distribution.BlockRange.{block_begin}
use activebsp.Distribution.BlockRange.Bounds.{div_range-block_begin, block_begin_le, mul_le}
use activebsp.Distribution.VectorDistribution.{Part}
use activebsp.Distribution.Ranges.{misses, wanted_size}
use activebsp.Store.DataStore.{Bytes, get_part_data}
use activebsp.Message.{StoreResultPartMessage, store_result_part}
use activebsp.Server.State.{Server, Sent, actor_message}
use activebsp.Server.Fetch.Sends.{part_out}
use activebsp.Server.Fetch.Blocks.{parts_out, blocks_out}

-- The size of a block.
abbrev pub block_size : ℕ → ℕ → ℕ → ℕ
block_size n p k = block_begin n p (k + 1) - block_begin n p k

block_begin_mono : (n p a b : ℕ) → a ≤ b → block_begin n p a ≤ block_begin n p b
block_begin_mono n p a b h = omega (arith, mul_le a b (n / p) h)

module _ (s : Server) (n p r resid : ℕ) (small : n < int_min) where
  -- The parts from number `k` on are the blocks, and of all of them this process holds number `r`,
  -- under the key `resid`.
  abbrev pub AreBlocks : ℕ → List Part → Type 0
  AreBlocks k [] = Unit
  AreBlocks k (part ∷ parts) =
      (part.offset ≡ block_begin n p k)
      × (part.size ≡ block_size n p k)
      × ((s.pid == part.pid) ≡ (k == r))
      × (k ≡ r → part.resid ≡ resid)
      × AreBlocks (suc k) parts

  misses-block :
      (i k : ℕ) (part : Part)
      → (i ≡ k → ⊥)
      → i < p
      → k < p
      → part.offset ≡ block_begin n p k
      → part.size ≡ block_size n p k
      → misses (block_begin n p i) (block_begin n p (i + 1)) part ≡ true
  misses-block i k part apart hi hk o z =
      let (up, last) = block_begin_le n p k hk in
      elim (dec_lt i k) [
        | yes before ↦
            let far = block_begin_mono n p (i + 1) k (omega arith) in
            ground (arith, o, z, up, last, far)
        | no since ↦
            let far = block_begin_mono n p (k + 1) i (ground (arith, since, apart)) in
            ground (arith, o, z, up, last, far)
      ]

  -- A part that is not the process's own, or does not meet the block, gives nothing.
  part_out-skipped :
      (pid key ioffset iend : ℕ) (part : Part)
      → (not (s.pid == part.pid) || misses ioffset iend part) ≡ true
      → part_out s pid key n ioffset iend part ≡ []
  part_out-skipped pid key ioffset iend part e = rw e

  parts_out-past :
      (pid key ioffset iend k : ℕ) (parts : List Part)
      → r < k
      → AreBlocks k parts
      → parts_out s pid key n ioffset iend parts ≡ []
  parts_out-past pid key ioffset iend k [] h b = refl
  parts_out-past pid key ioffset iend k (part ∷ parts) h (o, z, mine, e, b) =
      let skipped : (not (s.pid == part.pid) || misses ioffset iend part) ≡ true =
        let no_match : (k == r) ≡ false = ground (arith, h) in rw (mine ∙ no_match) refl in
      rw (part_out-skipped pid key ioffset iend part skipped)
        (parts_out-past pid key ioffset iend (suc k) parts (omega arith) b)

  -- Another block than the process's own.
  parts_out-other :
      (pid key i k : ℕ) (parts : List Part)
      → (i ≡ r → ⊥)
      → i < p
      → k + length parts ≤ p
      → AreBlocks k parts
      → parts_out s pid key n (block_begin n p i) (block_begin n p (i + 1)) parts ≡ []
  parts_out-other pid key i k [] other h c b = refl
  parts_out-other pid key i k (part ∷ parts) other h c (o, z, mine, e, b) =
      let skipped : (not (s.pid == part.pid)
            || misses (block_begin n p i) (block_begin n p (i + 1)) part)
          ≡ true =
        elim (Bool-cases (k == r)) [
          | inr no_match ↦ rw (mine ∙ no_match) refl
          | inl match ↦
              let apart : i ≡ k → ⊥ = λ same. other (ground (arith, match, same)) in
              rw (mine ∙ match, misses-block i k part apart h (omega arith) o z) refl
        ] in
      rw (part_out-skipped pid key (block_begin n p i) (block_begin n p (i + 1)) part skipped)
        (parts_out-other pid key i (suc k) parts other h (omega arith) b)

  module _ (bytes : Bytes) (m : ℕ) (held : get_part_data s.parts resid ≡ ok (some (bytes, m)))
      (whole : length bytes ≡ block_size n p r) where
    -- What is sent for the block: nothing if it is empty.
    abbrev pub chunks : ℕ → List StoreResultPartMessage
    chunks key =
        if block_size n p r == 0
        then []
        else record { resid = key; offset = 0; full_data_size = n; bytes = bytes } ∷ []

    abbrev pub block_out : ℕ → ℕ → List Sent
    block_out pid key = map (λ c. actor_message pid (store_result_part c)) (chunks key)

    part_out-own :
        (pid key : ℕ) (part : Part)
        → r < p
        → part.offset ≡ block_begin n p r
        → part.size ≡ block_size n p r
        → (s.pid == part.pid) ≡ true
        → part.resid ≡ resid
        → part_out s pid key n (block_begin n p r) (block_begin n p (r + 1)) part
          ≡ block_out pid key
    part_out-own pid key part h o z mine e =
        let (up, last) = block_begin_le n p r h in
        elim (Bool-cases (block_size n p r == 0)) [
          | inl none_there ↦
              let empty : misses (block_begin n p r) (block_begin n p (r + 1)) part ≡ true =
                ground (arith, o, z, up, last, none_there) in
              rw none_there (
                part_out-skipped pid key (block_begin n p r) (block_begin n p (r + 1)) part
                  (rw (mine, empty) refl))
          | inr some_there ↦
              let meets : misses (block_begin n p r) (block_begin n p (r + 1)) part ≡ false =
                ground (arith, o, z, up, last, some_there) in
              let size : wanted_size (block_begin n p r) (block_begin n p (r + 1)) part
                  ≡ block_size n p r =
                ground (arith, o, z, up, last, some_there) in
              let found = ap (get_part_data s.parts) e ∙ held in
              let all = take_all (block_size n p r) bytes (omega (arith, whole)) in
              rw (mine, meets, found, size, all, some_there) refl
        ]

    parts_out-own :
        (pid key k : ℕ) (parts : List Part)
        → k ≤ r
        → r < k + length parts
        → r < p
        → AreBlocks k parts
        → parts_out s pid key n (block_begin n p r) (block_begin n p (r + 1)) parts
          ≡ block_out pid key
    parts_out-own pid key k [] lo hi h b = absurd (omega arith)
    parts_out-own pid key k (part ∷ parts) lo hi h (o, z, mine, e, b) = elim (Bool-cases (k == r)) [
      | inl match ↦
          let same : k ≡ r = ground (arith, match) in
          ap₂ ◌++◌
            (part_out-own pid key part h (o ∙ ap (block_begin n p) same)
              (z ∙ ap (block_size n p) same) (mine ∙ match) (e same))
            (parts_out-past pid key (block_begin n p r) (block_begin n p (r + 1)) (suc k) parts
              (omega (arith, same)) b)
          ∙ append-nil (block_out pid key)
      | inr no_match ↦
          let skipped : (not (s.pid == part.pid)
                || misses (block_begin n p r) (block_begin n p (r + 1)) part)
              ≡ true =
            rw (mine ∙ no_match) refl in
          ap₂ ◌++◌
            (part_out-skipped pid key (block_begin n p r) (block_begin n p (r + 1)) part skipped)
            (parts_out-own pid key (suc k) parts (ground (arith, lo, no_match)) (omega (arith, hi))
              h b)
    ]

    module _ (parts : List Part) (all : length parts ≡ p) (few : p < int_min)
        (b : AreBlocks 0 parts) where
      -- The blocks of other processes, and all of them.
      blocks_out-past :
          (i : ℕ) (pids keys : List ℕ)
          → r < i
          → i + length pids ≤ p
          → blocks_out s n p i pids keys parts ≡ []
      blocks_out-past i [] keys h c = refl
      blocks_out-past i (pid ∷ pids) [] h c = refl
      blocks_out-past i (pid ∷ pids) (key ∷ keys) h c =
          let exact = div_range-block_begin n i p (omega arith) few small in
          ap₂ ◌++◌
            (ap (λ (q : ℕ × ℕ). parts_out s pid key n q.0 q.1 parts) exact
              ∙ parts_out-other pid key i 0 parts (λ same. omega (arith, h, same)) (omega arith)
                  (omega (arith, all)) b)
            (blocks_out-past (i + 1) pids keys (omega arith) (omega arith))

      pub blocks_out-aligned :
          (i : ℕ) (before after keys_before keys_after : List ℕ) (pid key : ℕ)
          → i + length before ≡ r
          → length keys_before ≡ length before
          → i + length (before ++ (pid ∷ after)) ≡ p
          → blocks_out s n p i (before ++ (pid ∷ after)) (keys_before ++ (key ∷ keys_after)) parts
            ≡ block_out pid key
      blocks_out-aligned i [] after [] keys_after pid key e e' c =
          let here : i ≡ r = omega (arith, e) in
          let exact = div_range-block_begin n i p (omega (arith, c)) few small in
          ap₂ ◌++◌
            (ap (λ (q : ℕ × ℕ). parts_out s pid key n q.0 q.1 parts) exact
              ∙ ap (λ j. parts_out s pid key n (block_begin n p j) (block_begin n p (j + 1)) parts)
                  here
              ∙ parts_out-own pid key 0 parts (omega arith) (omega (arith, all, c, here))
                  (omega (arith, c, here)) b)
            (blocks_out-past (i + 1) after keys_after (omega (arith, here)) (omega (arith, c)))
          ∙ append-nil (block_out pid key)
      blocks_out-aligned i [] after (k ∷ ks) keys_after pid key e e' c = absurd (omega arith)
      blocks_out-aligned i (x ∷ before) after [] keys_after pid key e e' c = absurd (omega arith)
      blocks_out-aligned i (x ∷ before) after (k ∷ ks) keys_after pid key e e' c =
          let exact = div_range-block_begin n i p (omega (arith, c)) few small in
          ap₂ ◌++◌
            (ap (λ (q : ℕ × ℕ). parts_out s x k n q.0 q.1 parts) exact
              ∙ parts_out-other x k i 0 parts (λ same. omega (arith, e, same)) (omega (arith, c))
                  (omega (arith, all)) b)
            (blocks_out-aligned (i + 1) before after ks keys_after pid key (omega (arith, e))
              (omega (arith, e')) (omega (arith, c)))
