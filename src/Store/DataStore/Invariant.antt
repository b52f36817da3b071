-- ===== src/Store/DataStore/Invariant.antt =====
-- When the three maps of a `DataStore` (DataStore.cpp) agree: every part has its buffer, of its size,
-- in the one place that its location names, and no buffer lies about without a part.
use native.Mathlib.Decide.{dec_lt}
use activebsp.Base.{
  ℕ, ◌+◌, ◌≤◌, ◌<◌, ◌≡◌, refl, sym, ◌∙◌, ltb, true, false, [], ◌∷◌, ◌⊎◌, inl, inr, Option, none,
  some, arith, length, length-replicate, value_or, size_mod, [], ◌>>=◌, >>=-eq-ok, length-copy_into,
  Result, ok, Option-cases,
}
use activebsp.Store.DataStore.{
  Bytes, DvPart, Location, vector_store, message_store, StoredMessage, DataStore, data_store,
  store_part_message, store_part_vector, prepare_part_vector, find_at, find_data_buf, add_data,
  remove_part, get_part_data, is_null,
}

abbrev HasSize : ℕ → Option Bytes → Type 0
HasSize n none = ⊥
HasSize n (some v) = length v ≡ n

abbrev payload_of : Option StoredMessage → Option Bytes
payload_of none = none
payload_of (some msg) = some msg.payload

abbrev FitsAt : Location → DvPart → Option Bytes → Option StoredMessage → Type 0
FitsAt vector_store p v m = (m ≡ none) × HasSize p.size v × (p.remaining_bytes ≤ p.size)
FitsAt message_store p v m = (v ≡ none) × HasSize p.size (payload_of m) × (p.remaining_bytes ≡ 0)

abbrev Fits : Option DvPart → Option Bytes → Option StoredMessage → Type 0
Fits none v m = (v ≡ none) × (m ≡ none)
Fits (some p) v m = FitsAt p.location p v m

pub record IsValid (d : DataStore) : Type 0 where
  pub fits : (k : ℕ) → Fits (d.dv_parts k) (d.result_vector_store k) (d.result_msg_store k)

pub data_store-IsValid : IsValid data_store
unfolding data_store
data_store-IsValid = record { fits = λ k. (refl, refl) }

module _ {d d' : DataStore} (v : IsValid d) (key : ℕ) where
  store_part_vector-IsValid : (bytes : Bytes) → store_part_vector d key bytes ≡ ok d' → IsValid d'
  unfolding store_part_vector
  store_part_vector-IsValid bytes h = record { fits = λ k. ground (arith, v.fits k, v.fits key) }

  prepare_part_vector-IsValid : (n : ℕ) → prepare_part_vector d key n ≡ ok d' → IsValid d'
  unfolding prepare_part_vector
  prepare_part_vector-IsValid n h = record {
    fits = λ k. ground (arith, v.fits k, v.fits key, length-replicate {A = ℕ} n 0);
  }

  store_part_message-IsValid :
      (msg : StoredMessage)
      → length msg.payload ≡ msg.data_size
      → store_part_message d key msg ≡ ok d'
      → IsValid d'
  unfolding store_part_message
  store_part_message-IsValid msg whole h = record {
    fits = λ k. ground (arith, v.fits k, v.fits key);
  }

  remove_part-IsValid : remove_part d key ≡ ok d' → IsValid d'
  unfolding remove_part
  remove_part-IsValid h = record { fits = λ k. ground (arith, v.fits k, v.fits key) }

  add_data-IsValid :
      (bytes : Bytes) (offset left : ℕ)
      → offset + length bytes < size_mod
      → add_data d key bytes offset ≡ ok (left, d')
      → IsValid d'
  unfolding add_data
  add_data-IsValid bytes offset left small h = record {
    fits = λ k. ground (
      arith,
      v.fits k,
      v.fits key,
      length-copy_into (value_or [] (d.result_vector_store key)) offset bytes,
      length-copy_into (value_or [] (payload_of (d.result_msg_store key))) offset bytes,
    );
  }

-- The operations that change the store, with their arguments.
pub data Op : Type 0 where
  stores_message : ℕ → StoredMessage → Op
  stores_vector : ℕ → Bytes → Op
  prepares : ℕ → ℕ → Op
  adds : ℕ → Bytes → ℕ → Op
  removes : ℕ → Op

unfoldable pub step : DataStore → Op → Result DataStore
step d (stores_message key msg) = store_part_message d key msg
step d (stores_vector key bytes) = store_part_vector d key bytes
step d (prepares key n) = prepare_part_vector d key n
step d (adds key bytes offset) = add_data d key bytes offset >>= λ (left, d'). ok d'
step d (removes key) = remove_part d key

-- What the callers keep to: a message holds as many bytes as it says, and the end of a chunk is a
-- `size_t`.
abbrev pub IsProper : Op → Type 0
IsProper (stores_message key msg) = length msg.payload ≡ msg.data_size
IsProper (adds key bytes offset) = offset + length bytes < size_mod
IsProper _ = Unit {0}

-- Every operation that returns keeps the three maps of the store in agreement, if a message that it
-- stores holds as many bytes as it says and a chunk that it adds ends below 2 ^ 64.
pub step-IsValid :
    (d : DataStore) (o : Op) {d' : DataStore}
    → IsValid d
    → IsProper o
    → step d o ≡ ok d'
    → IsValid d'
unfolding step
step-IsValid d (stores_message key msg) v w h = store_part_message-IsValid v key msg w h
step-IsValid d (stores_vector key bytes) v w h = store_part_vector-IsValid v key bytes h
step-IsValid d (prepares key n) v w h = prepare_part_vector-IsValid v key n h
step-IsValid d (adds key bytes offset) v w h =
    let (r, added, same) = >>=-eq-ok (add_data d key bytes offset) (λ (left, d'). ok d') h in
    add_data-IsValid v key bytes offset r.0 w (cc)
step-IsValid d (removes key) v w h = remove_part-IsValid v key h

buf_at :
    (d : DataStore) (key : ℕ) (l : Location) (p : DvPart)
    → FitsAt l p (d.result_vector_store key) (d.result_msg_store key)
    → (buf : Bytes) × (find_at d key l ≡ ok buf) × (length buf ≡ p.size)
unfolding find_at
buf_at d key vector_store p f = elim (Option-cases (d.result_vector_store key)) [
  | inl e ↦ absurd (ground (arith, f, e))
  | inr (buf, e) ↦ (buf, ground (arith, f, e), ground (arith, f, e))
]
buf_at d key message_store p f = elim (Option-cases (d.result_msg_store key)) [
  | inl e ↦ absurd (ground (arith, f, e))
  | inr (msg, e) ↦ (msg.payload, ground (arith, f, e), ground (arith, f, e))
]

-- The buffer of a part of a valid store is there and has the part's size.
pub find_data_buf_lem :
    (d : DataStore) (key : ℕ) (p : DvPart)
    → IsValid d
    → d.dv_parts key ≡ some p
    → (buf : Bytes) × (find_data_buf d key ≡ ok buf) × (length buf ≡ p.size)
unfolding find_data_buf
find_data_buf_lem d key p v e =
    let (buf, found, size) = buf_at d key p.location p (rw e at (v.fits key)) in
    (buf, rw (e, find_data_buf) found, size)

is_null-cases :
    (l : Location) (buf : Bytes)
    → ((is_null l buf ≡ true) × (l ≡ vector_store) × (length buf ≡ 0))
      ⊎ ((is_null l buf ≡ false) × ((l ≡ message_store) ⊎ (0 < length buf)))
is_null-cases vector_store [] = inl (refl, refl, refl)
is_null-cases vector_store (b ∷ bytes) = inr (refl, inr (omega arith))
is_null-cases message_store buf = inr (refl, inl refl)

-- The part is whole, and is an empty vector.
abbrev pub IsEmptyVector : DvPart → Type 0
IsEmptyVector p = (p.remaining_bytes ≡ 0) × (p.location ≡ vector_store) × (p.size ≡ 0)

-- On a valid store `getPartData` never fails an assertion. It gives the null pointer exactly when
-- the part is absent, has bytes missing or is an empty vector. Else the part is whole, and was stored
-- in a message or has a byte at least, and `getPartData` gives its buffer, which has the part's size.
pub get_part_data_lem :
    (d : DataStore) (key : ℕ)
    → IsValid d
    → ((get_part_data d key ≡ ok none)
        × ((d.dv_parts key ≡ none)
            ⊎ ((p : DvPart) × (d.dv_parts key ≡ some p)
                × ((0 < p.remaining_bytes) ⊎ IsEmptyVector p))))
      ⊎ ((p : DvPart) × (buf : Bytes) × (d.dv_parts key ≡ some p)
          × (p.remaining_bytes ≡ 0)
          × (get_part_data d key ≡ ok (some (buf, p.size)))
          × (length buf ≡ p.size)
          × ((p.location ≡ message_store) ⊎ (0 < p.size)))
unfolding get_part_data
get_part_data_lem d key v = elim (Option-cases (d.dv_parts key)) [
  | inl e ↦ inl (rw (e, get_part_data) refl, inl e)
  | inr (p, e) ↦
      let (buf, found, size) = find_data_buf_lem d key p v e in
      elim (dec_lt 0 p.remaining_bytes) [
        | yes h ↦ inl (ground arith, inr (p, e, inl h))
        | no h ↦
            let whole : ltb 0 p.remaining_bytes ≡ false = ground (arith, h) in
            elim (is_null-cases p.location buf) [
              | inl (null, here, empty) ↦ inl (
                rw (e, get_part_data, whole, found, null) refl,
                inr (p, e, inr (omega arith, here, sym size ∙ empty)),
              )
              | inr (there, why) ↦ inr (
                p,
                buf,
                e,
                omega arith,
                rw (e, get_part_data, whole, found, there) refl,
                size,
                elim why [ inl m ↦ inl m | inr pos ↦ inr (omega (arith, pos, size)) ],
              )
            ]
      ]
]

-- A part that is whole and not empty is given.
pub get_part_data-whole :
    (d : DataStore) (key : ℕ) (p : DvPart)
    → IsValid d
    → d.dv_parts key ≡ some p
    → p.remaining_bytes ≡ 0
    → 0 < p.size
    → (buf : Bytes) × (find_data_buf d key ≡ ok buf)
      × (get_part_data d key ≡ ok (some (buf, p.size)))
unfolding get_part_data
get_part_data-whole d key p v e done more =
    let (buf, found, size) = find_data_buf_lem d key p v e in
    let whole : ltb 0 p.remaining_bytes ≡ false = ground (arith, done) in
    elim (is_null-cases p.location buf) [
      | inl (null, here, empty) ↦ absurd (omega (arith, more, empty, size))
      | inr (there, why) ↦ (buf, found, rw (e, get_part_data, whole, found, there) refl)
    ]
