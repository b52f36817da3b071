-- ===== src/ImageDatabase/Buckets.antt =====
-- The hash table as a function of the images that were inserted.
use activebsp.Base.{
  ℕ, zero, suc, ◌+◌, ◌<◌, ◌≤◌, ◌≡◌, refl, sym, ap, ap₂, ◌∙◌, arith, ◌==◌, Bool, true, false,
  Bool-cases, List, [], ◌∷◌, ◌++◌, All, All-append, ==_refl, length, inl, inr, if◌then◌else◌, ok,
}
use activebsp.Store.DataStore.{Bytes}
use activebsp.ImageDatabase.{equal, find_in, entry_at, set_entry}

-- Equality of images as a test.
abbrev pub same : Bytes → Bytes → Bool
same [] [] = true
same [] (y ∷ ys) = false
same (x ∷ xs) [] = false
same (x ∷ xs) (y ∷ ys) = if x == y then same xs ys else false

abbrev pub occurs : Bytes → List Bytes → Bool
occurs img [] = false
occurs img (other ∷ others) = if same other img then true else occurs img others

pub same_eq : (xs ys : Bytes) → same xs ys ≡ true → xs ≡ ys
same_eq [] [] h = refl
same_eq [] (y ∷ ys) h = cc
same_eq (x ∷ xs) [] h = cc
same_eq (x ∷ xs) (y ∷ ys) h = ground (arith, same_eq xs ys)

occurs-snoc :
    (img other : Bytes) (xs : List Bytes)
    → occurs img (xs ++ (other ∷ [])) ≡ (if occurs img xs then true else same other img)
occurs-snoc img other [] = ground arith
occurs-snoc img other (x ∷ xs) = ground (arith, occurs-snoc img other xs)

All-if :
    (P : Bytes → Type 0) (b : Bool) (xs ys : List Bytes)
    → All P xs
    → All P ys
    → All P (if b then xs else ys)
All-if P true xs ys h k = h
All-if P false xs ys h k = k

-- The images inserted with hash value `k`, the latest first in `imgs`, each once and in the order
-- of their first insertion.
module _ (slot : Bytes → ℕ) where
  abbrev pub bucket : List Bytes → ℕ → List Bytes
  bucket [] k = []
  bucket (img ∷ imgs) k =
      if slot img == k
      then (if occurs img (bucket imgs k) then bucket imgs k else bucket imgs k ++ (img ∷ []))
      else bucket imgs k

  -- The part of the table for `n` hash values from `start` on.
  abbrev pub table_of : List Bytes → ℕ → ℕ → List (List Bytes)
  table_of imgs start zero = []
  table_of imgs start (suc n) = bucket imgs start ∷ table_of imgs (suc start) n

  pub entry_at-table_of :
      (imgs : List Bytes) (start n i : ℕ)
      → i < n
      → entry_at (table_of imgs start n) i ≡ ok (bucket imgs (start + i))
  unfolding entry_at
  entry_at-table_of imgs start zero i h = absurd (omega arith)
  entry_at-table_of imgs start (suc n) zero h = ap (λ k. ok (bucket imgs k)) (omega arith)
  entry_at-table_of imgs start (suc n) (suc i) h =
      entry_at-table_of imgs (suc start) n i (omega arith)
      ∙ ap (λ k. ok (bucket imgs k)) (omega arith)

  -- An image with a hash value outside leaves this part of the table alone.
  pub table_of-outside :
      (img : Bytes) (imgs : List Bytes) (start n : ℕ)
      → (start ≤ slot img → slot img < start + n → ⊥)
      → table_of (img ∷ imgs) start n ≡ table_of imgs start n
  table_of-outside img imgs start zero h = refl
  table_of-outside img imgs start (suc n) h =
      let other : (slot img == start) ≡ false = ground arith in
      rw other (
        ap (λ table. bucket imgs start ∷ table)
          (table_of-outside img imgs (suc start) n
            (λ (lo : suc start ≤ slot img) (hi : slot img < suc start + n).
              h (omega arith) (omega arith))))

  -- An image that is there already changes nothing.
  bucket-known :
      (img : Bytes) (imgs : List Bytes) (k : ℕ)
      → occurs img (bucket imgs (slot img)) ≡ true
      → bucket (img ∷ imgs) k ≡ bucket imgs k
  bucket-known img imgs k there = elim (Bool-cases (slot img == k)) [
    | inr e ↦ rw e
    | inl e ↦
        let at_k : slot img ≡ k = ground (arith, e) in
        rw (e, ap (λ j. occurs img (bucket imgs j)) (sym at_k) ∙ there) refl
  ]

  pub table_of-known :
      (img : Bytes) (imgs : List Bytes) (start n : ℕ)
      → occurs img (bucket imgs (slot img)) ≡ true
      → table_of (img ∷ imgs) start n ≡ table_of imgs start n
  table_of-known img imgs start zero there = refl
  table_of-known img imgs start (suc n) there =
      ap₂ ◌∷◌ (bucket-known img imgs start there) (table_of-known img imgs (suc start) n there)

  -- A new image goes to the end of one entry.
  pub table_of-new :
      (img : Bytes) (imgs : List Bytes) (start n i : ℕ)
      → occurs img (bucket imgs (slot img)) ≡ false
      → slot img ≡ start + i
      → i < n
      → table_of (img ∷ imgs) start n
        ≡ set_entry (table_of imgs start n) i (bucket imgs (slot img) ++ (img ∷ []))
  unfolding set_entry
  table_of-new img imgs start zero i new e h = absurd (omega arith)
  table_of-new img imgs start (suc n) zero new e h =
      let at_start : slot img ≡ start = omega arith in
      let here : (slot img == start) ≡ true = ground (arith, at_start) in
      let absent = ap (λ j. occurs img (bucket imgs j)) (sym at_start) ∙ new in
      rw (here, absent)
        (ap₂ ◌∷◌ (ap (λ j. bucket imgs j ++ (img ∷ [])) (sym at_start)) (
          table_of-outside img imgs (suc start) n
            (λ (lo : suc start ≤ slot img) (hi : slot img < suc start + n). omega arith)))
  table_of-new img imgs start (suc n) (suc i) new e h =
      let other : (slot img == start) ≡ false = ground (arith, e) in
      rw other (
        ap (λ table. bucket imgs start ∷ table)
          (table_of-new img imgs (suc start) n i new (omega arith) (omega arith)))

  -- The images stored have the given size, and no image is there twice.
  pub bucket-length :
      (size : ℕ) (imgs : List Bytes) (k : ℕ)
      → All (λ img. length img ≡ size) imgs
      → All (λ img. length img ≡ size) (bucket imgs k)
  bucket-length size [] k h = tt
  bucket-length size (img ∷ imgs) k (h, hs) =
      let ih = bucket-length size imgs k hs in
      All-if _ (slot img == k) _ _
        (All-if _ (occurs img (bucket imgs k)) _ _ ih
          (All-append _ (bucket imgs k) (img ∷ []) ih (h, tt)))
        ih

  -- An image occurs in the entry of its hash value if it was inserted.
  pub occurs-bucket :
      (img : Bytes) (imgs : List Bytes) → occurs img (bucket imgs (slot img)) ≡ occurs img imgs
  occurs-bucket img [] = refl
  occurs-bucket img (other ∷ imgs) =
      let b = bucket imgs (slot img) in
      let ih = occurs-bucket img imgs in
      elim (Bool-cases (same other img)) [
        | inl e ↦
            let here = same_eq other img e in
            let slots : (slot other == slot img) ≡ true =
              ap (λ k. k == slot img) (ap slot here) ∙ ==_refl (slot img) in
            elim (Bool-cases (occurs other b)) [
              | inl there ↦ rw (e, slots, there) (sym (ap (λ x. occurs x b) here) ∙ there)
              | inr new ↦ rw (e, slots, new) (occurs-snoc img other b ∙ ground (arith, e))
            ]
        | inr e ↦ elim (Bool-cases (slot other == slot img)) [
          | inr slots ↦ rw (e, slots) ih
          | inl slots ↦ elim (Bool-cases (occurs other b)) [
            | inl there ↦ rw (e, slots, there) ih
            | inr new ↦ rw (e, slots, new) (occurs-snoc img other b ∙ ground (arith, e, ih))
          ]
        ]
      ]

-- The loops over an entry, on images of one size.
equal-same : (xs ys : Bytes) → length xs ≡ length ys → equal xs ys ≡ ok (same xs ys)
unfolding equal
equal-same [] [] e = refl
equal-same [] (y ∷ ys) e = absurd (omega arith)
equal-same (x ∷ xs) [] e = absurd (omega arith)
equal-same (x ∷ xs) (y ∷ ys) e = ground (arith, equal-same xs ys)

pub find_in-occurs :
    (img : Bytes) (entry : List Bytes)
    → All (λ other. length other ≡ length img) entry
    → find_in img entry ≡ ok (occurs img entry)
unfolding find_in
find_in-occurs img [] h = refl
find_in-occurs img (it ∷ entry) (h, hs) =
    rw (equal-same it img h) (ground (arith, find_in-occurs img entry hs))
