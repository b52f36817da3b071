-- ===== src/ImageDatabase/Gathering.antt =====
-- The supersteps in which the processes read an image, agree on its hash value and put the image
-- together on one of them.
use activebsp.Base.{
  ℕ, zero, suc, ◌+◌, ◌-◌, ◌*◌, ◌<◌, ◌≤◌, ◌≡◌, refl, sym, ap, ◌∙◌, subst, arith, ◌==◌, List, [], ◌∷◌,
  ◌++◌, All, append_assoc, inl, inr, length, length-append, length-slice, slice, take, drop,
  take_all, take-append_le, drop-append_ge, if◌then◌else◌,
}
use native.Mathlib.Decide.{dec_lt}
use activebsp.Pieces.{Chunk, IsPieceOf, Covers}
use activebsp.Store.DataStore.{Bytes}
use activebsp.Message.Fields.{size_bytes}
use activebsp.Distribution.BlockRange.{block_begin}
use activebsp.Distribution.BlockRange.Bounds.{block_begin_le}
use activebsp.ImageDatabase.{puts_to}
use activebsp.ImageDatabase.Represents.{size_at, part_at, words}

module _ (hash_part : Bytes → ℕ) (hash_procs : Bytes → ℕ) (n p : ℕ) (img : Bytes) where
  -- The puts of the hashes of the processes from `s` on.
  abbrev pub hash_pieces : ℕ → ℕ → List Chunk
  hash_pieces s zero = []
  hash_pieces s (suc count) =
      record { offset = s * 8; bytes = size_bytes (hash_part (part_at n p s img)) }
      ∷ hash_pieces (suc s) count

  pub length-words : (s count : ℕ) → length (words hash_part hash_procs n p img s count) ≡ 8 * count
  length-words s zero = omega arith
  length-words s (suc count) = omega (arith, length-words (suc s) count)

  slice-middle :
      (before x after : Bytes) (k l : ℕ)
      → length before ≡ k
      → length x ≡ l
      → slice k l (before ++ (x ++ after)) ≡ x
  slice-middle before x after k l e e' =
      let none_left : k - length before ≡ 0 = omega (arith, e) in
      ap (take l) (drop-append_ge k before (x ++ after) (omega arith))
      ∙ ap (λ j. take l (drop j (x ++ after))) none_left
      ∙ take-append_le l x after (omega arith)
      ∙ take_all l x (omega arith)

  pub hash_pieces-IsPieceOf :
      (before : Bytes) (s count : ℕ)
      → length before ≡ s * 8
      → All (IsPieceOf (before ++ words hash_part hash_procs n p img s count)) (hash_pieces s count)
  hash_pieces-IsPieceOf before s zero e = tt
  hash_pieces-IsPieceOf before s (suc count) e =
      let x = size_bytes (hash_part (part_at n p s img)) in
      let rest = words hash_part hash_procs n p img (suc s) count in
      (
        (
          omega (arith, e, length-append before (x ++ rest), length-append x rest),
          sym (slice-middle before x rest (s * 8) 8 e refl),
        ),
        subst (λ whole. All (IsPieceOf whole) (hash_pieces (suc s) count))
            (append_assoc before x rest)
            (hash_pieces-IsPieceOf (before ++ x) (suc s) count
              (omega (arith, e, length-append before x))),
      )

  pub hash_pieces-Covers :
      (s count i : ℕ) → s * 8 ≤ i → i < (s + count) * 8 → Covers (hash_pieces s count) i
  hash_pieces-Covers s zero i lo hi = absurd (omega arith)
  hash_pieces-Covers s (suc count) i lo hi = elim (dec_lt i (s * 8 + 8)) [
    | yes here ↦ inl (lo, here)
    | no later ↦ inr (hash_pieces-Covers (suc s) count i (omega arith) (omega arith))
  ]

  -- The puts of the parts of the processes from `s` on.
  abbrev pub pieces : ℕ → ℕ → List Chunk
  pieces s zero = []
  pieces s (suc count) =
      record { offset = block_begin n p s; bytes = part_at n p s img } ∷ pieces (suc s) count

  abbrev pub sends : ℕ → ℕ → ℕ → List (ℕ × Chunk)
  sends dst s zero = []
  sends dst s (suc count) =
      (dst, record { offset = block_begin n p s; bytes = part_at n p s img })
      ∷ sends dst (suc s) count

  pub puts_to-sends :
      (q dst s count : ℕ)
      → puts_to q (sends dst s count) ≡ (if dst == q then pieces s count else [])
  unfolding puts_to
  puts_to-sends q dst s zero = ground arith
  puts_to-sends q dst s (suc count) = ground (arith, puts_to-sends q dst (suc s) count)

  module _ (sized : length img ≡ n) where
    pub length-part_at : (s : ℕ) → s < p → length (part_at n p s img) ≡ size_at n p s
    length-part_at s h =
        let (up, last) = block_begin_le n p s h in
        length-slice (block_begin n p s) (size_at n p s) img (omega (arith, up, last, sized))

    pub pieces-IsPieceOf : (s count : ℕ) → s + count ≤ p → All (IsPieceOf img) (pieces s count)
    pieces-IsPieceOf s zero h = tt
    pieces-IsPieceOf s (suc count) h =
        let (up, last) = block_begin_le n p s (omega arith) in
        let size = length-part_at s (omega arith) in
        (
          (
            omega (arith, up, last, sized, size),
            ap (λ k. slice (block_begin n p s) k img) (sym size),
          ),
          pieces-IsPieceOf (suc s) count (omega arith),
        )

    pub pieces-Covers :
        (s count stop i : ℕ)
        → stop ≡ s + count
        → stop ≤ p
        → block_begin n p s ≤ i
        → i < block_begin n p stop
        → Covers (pieces s count) i
    pieces-Covers s zero stop i e h lo hi =
        let ends : stop ≡ s = omega arith in absurd (omega (arith, ap (block_begin n p) ends))
    pieces-Covers s (suc count) stop i e h lo hi =
        let next : s + 1 ≡ suc s = omega arith in
        elim (dec_lt i (block_begin n p (s + 1))) [
          | yes here ↦
              let up = block_begin_le n p s (omega arith) in
              inl (lo, omega (arith, length-part_at s (omega arith), up.0))
          | no later ↦ inr (
              pieces-Covers (suc s) count stop i (omega arith) h
                (omega (arith, ap (block_begin n p) next, later)) hi)
        ]
