-- ===== src/Pieces.antt =====
-- Bytes that are put together from pieces, in any order: chunks of a vector that several messages
-- bring, or that several processes answer with.
use native.Mathlib.Decide.{dec_lt}
use activebsp.Base.{
  ℕ, ◌+◌, ◌-◌, ◌≤◌, ◌<◌, ◌≡◌, ◌⊎◌, inl, inr, List, [], ◌∷◌, arith, All, length, slice, copy_into,
  length-copy_into, get_elem?, get_elem?-slice, get_elem?-copy_into_inside,
  get_elem?-copy_into_outside, eq_of_get_elem?, ◌∙◌, ap,
}

-- Bytes with the offset at which they are copied into a buffer.
pub record Chunk : Type 0 where
  pub offset : ℕ
  pub bytes : List ℕ

abbrev pub total : List Chunk → ℕ
total [] = 0
total (c ∷ cs) = length c.bytes + total cs

-- The chunk is the piece of the whole that belongs at its offset.
abbrev pub IsPieceOf : List ℕ → Chunk → Type 0
IsPieceOf whole c =
    (c.offset + length c.bytes ≤ length whole) × (c.bytes ≡ slice c.offset (length c.bytes) whole)

-- Some chunk brings byte `i`.
abbrev pub Covers : List Chunk → ℕ → Type 0
Covers [] i = ⊥
Covers (c ∷ cs) i = ((c.offset ≤ i) × (i < c.offset + length c.bytes)) ⊎ Covers cs i

pub agree_after :
    (whole buf : List ℕ) (c : Chunk) (i : ℕ)
    → length buf ≡ length whole
    → IsPieceOf whole c
    → (((c.offset ≤ i) × (i < c.offset + length c.bytes)) ⊎ (get_elem? buf i ≡ get_elem? whole i))
    → get_elem? (copy_into buf c.offset c.bytes) i ≡ get_elem? whole i
agree_after whole buf c i e (fits, piece) h = elim (dec_lt i c.offset) [
  | yes before ↦ outside (inl before)
  | no since ↦ elim (dec_lt i (c.offset + length c.bytes)) [
    | no past ↦ outside (inr (omega arith))
    | yes within ↦
        let same : c.offset + (i - c.offset) ≡ i = omega arith in
        get_elem?-copy_into_inside buf c.offset c.bytes i (omega arith) (omega arith) within
        ∙ (ap (λ b. get_elem? b (i - c.offset)) piece
            ∙ (get_elem?-slice c.offset (length c.bytes) whole (i - c.offset) (omega arith)
                ∙ ap (get_elem? whole) same))
  ]
]
  where
    outside :
        (i < c.offset) ⊎ (c.offset + length c.bytes ≤ i)
        → get_elem? (copy_into buf c.offset c.bytes) i ≡ get_elem? whole i
    outside away =
        get_elem?-copy_into_outside buf c.offset c.bytes i (omega arith) away
        ∙ elim h [ inl (lo, hi) ↦ absurd (omega arith) | inr old ↦ old ]

-- All pieces copied in turn.
abbrev pub copy_all : List ℕ → List Chunk → List ℕ
copy_all buf [] = buf
copy_all buf (c ∷ cs) = copy_all (copy_into buf c.offset c.bytes) cs

pub copy_all-agree :
    (whole buf : List ℕ) (cs : List Chunk)
    → length buf ≡ length whole
    → All (IsPieceOf whole) cs
    → (length (copy_all buf cs) ≡ length whole)
      × ((i : ℕ)
          → Covers cs i ⊎ (get_elem? buf i ≡ get_elem? whole i)
          → get_elem? (copy_all buf cs) i ≡ get_elem? whole i)
copy_all-agree whole buf [] e p =
    (e, λ i c. elim c [ inl no_cover ↦ absurd no_cover | inr old ↦ old ])
copy_all-agree whole buf (c ∷ cs) e (p, ps) =
    let next : List ℕ = copy_into buf c.offset c.bytes in
    let sized : length next ≡ length whole =
      length-copy_into buf c.offset c.bytes (omega arith) ∙ e in
    let (size, agree) = copy_all-agree whole next cs sized ps in
    (
      size,
      λ i cover. agree i (elim cover [
        | inl (inl now) ↦ inr (agree_after whole buf c i e p (inl now))
        | inl (inr later) ↦ inl later
        | inr old ↦ inr (agree_after whole buf c i e p (inr old))
      ]),
    )

-- Pieces that cover the whole give the whole.
pub copy_all-whole :
    (whole buf : List ℕ) (cs : List Chunk)
    → length buf ≡ length whole
    → All (IsPieceOf whole) cs
    → ((i : ℕ) → i < length whole → Covers cs i)
    → copy_all buf cs ≡ whole
copy_all-whole whole buf cs e p covers =
    let (size, agree) = copy_all-agree whole buf cs e p in
    eq_of_get_elem? (copy_all buf cs) whole size
      (λ i lt. agree i (inl (covers i (omega (arith, size, lt)))))
