-- ===== src/Worker/Spmd/Table.antt =====
-- The table of parallel functions as a map from addresses to functions.
use activebsp.Base.{
  ℕ, zero, suc, ◌+◌, ◌<◌, ◌≡◌, refl, ap, ◌∙◌, arith, ◌==◌, inl, inr, Option, none, some, Bool-cases,
  List, [], ◌∷◌, ◌++◌, length, length-append, get_elem?, int_min, to_int, if◌then◌else◌, Result,
}
use activebsp.Worker.Spmd.{Actor, register_spmd}

module _ {A : Type 0} where
  -- The function that an address stands for.
  abbrev pub at_id : Actor A → Option ℕ → Option (A → Result A)
  at_id a none = none
  at_id a (some id) = get_elem? a.spmd_functions id

  abbrev pub function_of : Actor A → ℕ → Option (A → Result A)
  function_of a addr = at_id a (a.spmd_function_ids addr)

  -- Every number in the table is one of the functions, and there are fewer than 2 ^ 31.
  pub record IsTable (a : Actor A) : Type 0 where
    pub known : (addr id : ℕ) → a.spmd_function_ids addr ≡ some id → id < length a.spmd_functions
    pub few : length a.spmd_functions < int_min

  get_elem?-append :
      (fs : List (A → Result A)) (f : A → Result A) (i : ℕ)
      → i < length fs
      → get_elem? (fs ++ (f ∷ [])) i ≡ get_elem? fs i
  get_elem?-append [] f i h = absurd (omega arith)
  get_elem?-append (g ∷ fs) f zero h = refl
  get_elem?-append (g ∷ fs) f (suc i) h = get_elem?-append fs f i (omega arith)

  get_elem?-last :
      (fs : List (A → Result A)) (f : A → Result A)
      → get_elem? (fs ++ (f ∷ [])) (length fs) ≡ some f
  get_elem?-last [] f = refl
  get_elem?-last (g ∷ fs) f = get_elem?-last fs f

  at_id-append :
      (a : Actor A) (f : A → Result A) (found : Option ℕ)
      → ((id : ℕ) → found ≡ some id → id < length a.spmd_functions)
      → at_id (record a { spmd_functions = a.spmd_functions ++ (f ∷ []) }) found ≡ at_id a found
  at_id-append a f none h = refl
  at_id-append a f (some id) h = get_elem?-append a.spmd_functions f id (h id refl)

  -- Registering a function gives the table with that function at its address and every other
  -- address as before, as long as there are fewer than 2 ^ 31 functions.
  pub register_spmd_lem :
      (a : Actor A) (addr : ℕ) (f : A → Result A)
      → IsTable a
      → length a.spmd_functions + 1 < int_min
      → IsTable (register_spmd a addr f)
        × ((other : ℕ)
            → function_of (register_spmd a addr f) other
              ≡ (if other == addr then some f else function_of a other))
  unfolding register_spmd
  register_spmd_lem a addr f v small = (
    record {
      known =
          λ other id h. ground (arith, length-append a.spmd_functions (f ∷ []), v.known other id);
      few = omega (arith, length-append a.spmd_functions (f ∷ []));
    },
    λ other. elim (Bool-cases (other == addr)) [
      | inl e ↦
          let id : to_int (length a.spmd_functions) ≡ length a.spmd_functions =
            omega (arith, v.few) in
          rw e (
            ap (λ n. get_elem? (a.spmd_functions ++ (f ∷ [])) n) id
            ∙ get_elem?-last a.spmd_functions f)
      | inr e ↦ rw e (at_id-append a f (a.spmd_function_ids other) (v.known other))
    ],
  )
