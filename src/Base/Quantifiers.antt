-- ===== src/Base/Quantifiers.antt =====
-- Lists all of whose elements, or some of whose elements, satisfy a predicate.
use mathlib.Core.Logic.{◌⊎◌, inl, inr}
use mathlib.Core.List.{List, [], ◌∷◌, ◌++◌}
use activebsp.Base.Lists.{All}

module _ {A : Type 0} where
  abbrev pub Any : (A → Type 0) → List A → Type 0
  Any P [] = ⊥
  Any P (x ∷ xs) = P x ⊎ Any P xs

  module _ (P : A → Type 0) where
    pub All-append : (xs ys : List A) → All P xs → All P ys → All P (xs ++ ys)
    All-append [] ys h k = k
    All-append (x ∷ xs) ys h k = (h.0, All-append xs ys h.1 k)

    pub All-append_left : (xs ys : List A) → All P (xs ++ ys) → All P xs
    All-append_left [] ys h = tt
    All-append_left (x ∷ xs) ys h = (h.0, All-append_left xs ys h.1)

    pub All-append_right : (xs ys : List A) → All P (xs ++ ys) → All P ys
    All-append_right [] ys h = h
    All-append_right (x ∷ xs) ys h = All-append_right xs ys h.1

    pub Any-append_left : (xs ys : List A) → Any P xs → Any P (xs ++ ys)
    Any-append_left [] ys h = absurd h
    Any-append_left (x ∷ xs) ys (inl h) = inl h
    Any-append_left (x ∷ xs) ys (inr h) = inr (Any-append_left xs ys h)

    pub Any-append_right : (xs ys : List A) → Any P ys → Any P (xs ++ ys)
    Any-append_right [] ys h = h
    Any-append_right (x ∷ xs) ys h = inr (Any-append_right xs ys h)

    pub Any-append : (xs ys : List A) → Any P (xs ++ ys) → Any P xs ⊎ Any P ys
    Any-append [] ys h = inr h
    Any-append (x ∷ xs) ys (inl h) = inl (inl h)
    Any-append (x ∷ xs) ys (inr h) = elim (Any-append xs ys h) [
      | inl k ↦ inl (inr k)
      | inr k ↦ inr k
    ]

    pub All-map₂ :
        (Q R : A → Type 0) (xs : List A)
        → ((x : A) → P x → Q x → R x)
        → All P xs
        → All Q xs
        → All R xs
    All-map₂ Q R [] f h k = tt
    All-map₂ Q R (x ∷ xs) f h k = (f x h.0 k.0, All-map₂ Q R xs f h.1 k.1)
