-- ===== src/Base/Index.antt =====
-- Single elements of slices and of buffers that were written over, and lists with equal elements.
use Prim.Native.Nat.{ℕ, zero, suc, ◌+◌, ◌-◌, ◌≤◌, ◌<◌}
use mathlib.Core.Path.{◌≡◌, refl, ap, ap₂, ◌∙◌}
use mathlib.Core.Logic.{◌⊎◌, inl, inr}
use mathlib.Core.List.{List, [], ◌∷◌, ◌++◌}
use mathlib.Core.Option.{some}
use native.Mathlib.Omega.{arith}
use activebsp.Base.Lists.{length, get_elem?, take, drop, slice, copy_into, length-take}

module _ {ℓ} {A : Type ℓ} where
  pub get_elem?-append_lt :
      (xs ys : List A) (i : ℕ) → i < length xs → get_elem? (xs ++ ys) i ≡ get_elem? xs i
  get_elem?-append_lt [] ys i h = absurd (omega arith)
  get_elem?-append_lt (x ∷ xs) ys zero h = refl
  get_elem?-append_lt (x ∷ xs) ys (suc i) h = get_elem?-append_lt xs ys i (omega arith)

  pub get_elem?-append_ge :
      (xs ys : List A) (i : ℕ)
      → length xs ≤ i
      → get_elem? (xs ++ ys) i ≡ get_elem? ys (i - length xs)
  get_elem?-append_ge [] ys i h = ap (get_elem? ys) (omega arith)
  get_elem?-append_ge (x ∷ xs) ys zero h = absurd (omega arith)
  get_elem?-append_ge (x ∷ xs) ys (suc i) h =
      let e : i - length xs ≡ suc i - suc (length xs) = omega arith in
      get_elem?-append_ge xs ys i (omega arith) ∙ ap (get_elem? ys) e

  pub get_elem?-take :
      (n : ℕ) (xs : List A) (i : ℕ) → i < n → get_elem? (take n xs) i ≡ get_elem? xs i
  get_elem?-take zero xs i h = absurd (omega arith)
  get_elem?-take (suc n) [] i h = refl
  get_elem?-take (suc n) (x ∷ xs) zero h = refl
  get_elem?-take (suc n) (x ∷ xs) (suc i) h = get_elem?-take n xs i (omega arith)

  pub get_elem?-drop :
      (n : ℕ) (xs : List A) (i : ℕ) → get_elem? (drop n xs) i ≡ get_elem? xs (n + i)
  get_elem?-drop zero xs i = ap (get_elem? xs) (omega arith)
  get_elem?-drop (suc n) [] i = refl
  get_elem?-drop (suc n) (x ∷ xs) i =
      let e : suc (n + i) ≡ suc n + i = omega arith in
      get_elem?-drop n xs i ∙ ap (get_elem? (x ∷ xs)) e

  pub get_elem?-slice :
      (offset size : ℕ) (xs : List A) (i : ℕ)
      → i < size
      → get_elem? (slice offset size xs) i ≡ get_elem? xs (offset + i)
  get_elem?-slice offset size xs i h =
      get_elem?-take size (drop offset xs) i h ∙ get_elem?-drop offset xs i

  -- A byte of a buffer after a copy: the new one inside the written range, the old one outside.
  pub get_elem?-copy_into_inside :
      (buf : List A) (offset : ℕ) (src : List A) (i : ℕ)
      → offset + length src ≤ length buf
      → offset ≤ i
      → i < offset + length src
      → get_elem? (copy_into buf offset src) i ≡ get_elem? src (i - offset)
  get_elem?-copy_into_inside buf offset src i fits lo hi =
      let front : length (take offset buf) ≡ offset = omega (arith, length-take offset buf) in
      let rest : List A = drop (offset + length src) buf in
      get_elem?-append_ge (take offset buf) (src ++ rest) i (omega arith)
      ∙ (rw front (get_elem?-append_lt src rest (i - offset) (omega arith)))

  pub get_elem?-copy_into_outside :
      (buf : List A) (offset : ℕ) (src : List A) (i : ℕ)
      → offset + length src ≤ length buf
      → (i < offset) ⊎ (offset + length src ≤ i)
      → get_elem? (copy_into buf offset src) i ≡ get_elem? buf i
  get_elem?-copy_into_outside buf offset src i fits (inl h) =
      let front : length (take offset buf) ≡ offset = omega (arith, length-take offset buf) in
      get_elem?-append_lt (take offset buf) (src ++ drop (offset + length src) buf) i (omega arith)
      ∙ get_elem?-take offset buf i h
  get_elem?-copy_into_outside buf offset src i fits (inr h) =
      let front : length (take offset buf) ≡ offset = omega (arith, length-take offset buf) in
      let rest : List A = drop (offset + length src) buf in
      let e : offset + length src + (i - offset - length src) ≡ i = omega arith in
      get_elem?-append_ge (take offset buf) (src ++ rest) i (omega arith)
      ∙ rw front (
          get_elem?-append_ge src rest (i - offset) (omega arith)
          ∙ (get_elem?-drop (offset + length src) buf (i - offset - length src)
              ∙ ap (get_elem? buf) e))

  -- Lists of one length with the same elements are equal.
  pub eq_of_get_elem? :
      (xs ys : List A)
      → length xs ≡ length ys
      → ((i : ℕ) → i < length xs → get_elem? xs i ≡ get_elem? ys i)
      → xs ≡ ys
  eq_of_get_elem? [] [] e h = refl
  eq_of_get_elem? [] (y ∷ ys) e h = absurd (omega arith)
  eq_of_get_elem? (x ∷ xs) [] e h = absurd (omega arith)
  eq_of_get_elem? (x ∷ xs) (y ∷ ys) e h =
      let head : some x ≡ some y = h 0 (omega arith) in
      ap₂ ◌∷◌ (cc) (eq_of_get_elem? xs ys (omega arith) (λ i lt. h (suc i) (omega arith)))
