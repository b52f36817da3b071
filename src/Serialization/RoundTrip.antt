-- ===== src/Serialization/RoundTrip.antt =====
-- The layout that serialization gives, and what is read back from it.
use activebsp.Base.{
  ℕ, ◌+◌, ◌-◌, ◌*◌, ◌<◌, ◌≡◌, refl, sym, ap, ap₂, ◌∙◌, arith, List, [], ◌∷◌, ◌++◌, length, drop,
  replicate, copy_into, All, size_add, size_mul, size_mod, ok, length-append, append_assoc,
  append-nil, drop-append_ge, drop_all, copy_into-end, length-replicate, drop-drop,
}
use activebsp.Store.DataStore.{Bytes}
use activebsp.Message.Fields.{size_bytes, read_bytes, size_bytes_join, IsSize, read_bytes-append}
use activebsp.Serialization.{
  ArgType, Arg, Args, pod, vector, object, elements, predict_unit, predict, concat, serialize_unit,
  serialize_to_buf, serialize, read_elements, deserialize_unit, deserialize,
}

-- A value that a type has: its bytes, or those of each element, are of the size of the type.
unfoldable pub IsValue : (t : ArgType) → Arg t → Type 0
IsValue (pod size) (object bytes) = length bytes ≡ size
IsValue (vector size) (elements es) = IsSize (length es) × All (λ e. length e ≡ size) es

unfoldable pub AreValues : (ts : List ArgType) → Args ts → Type 0
unfolding IsValue
AreValues [] args = Unit
AreValues (t ∷ ts) (x, xs) = IsValue t x × AreValues ts xs

-- The layout: one value after another, a vector after the number of its elements.
unfoldable pub unit_bytes : (t : ArgType) → Arg t → Bytes
unit_bytes (pod size) (object bytes) = bytes
unit_bytes (vector size) (elements es) = size_bytes (length es) ++ concat es

unfoldable pub all_bytes : (ts : List ArgType) → Args ts → Bytes
unfolding unit_bytes
all_bytes [] args = []
all_bytes (t ∷ ts) (x, xs) = unit_bytes t x ++ all_bytes ts xs

length-concat :
    (size : ℕ) (es : List Bytes)
    → All (λ e. length e ≡ size) es
    → length (concat es) ≡ length es * size
length-concat size [] h = omega arith
length-concat size (e ∷ es) h =
    omega (arith, length-append e (concat es), length-concat size es h.1, h.0)

-- What a unit takes when nothing wraps round.
predict_unit-length :
    (t : ArgType) (x : Arg t)
    → IsValue t x
    → length (unit_bytes t x) < size_mod
    → predict_unit t x ≡ length (unit_bytes t x)
unfolding predict_unit unit_bytes IsValue
predict_unit-length (pod size) (object bytes) h fits = sym h
predict_unit-length (vector size) (elements es) h fits = omega (arith, length-concat size es h.1)

predict-length :
    (ts : List ArgType) (xs : Args ts)
    → AreValues ts xs
    → length (all_bytes ts xs) < size_mod
    → predict ts xs ≡ length (all_bytes ts xs)
unfolding predict all_bytes AreValues
predict-length [] xs h fits = refl
predict-length (t ∷ ts) (x, xs) h fits = omega (
  arith,
  length-append (unit_bytes t x) (all_bytes ts xs),
  predict_unit-length t x h.0 (omega (arith, length-append (unit_bytes t x) (all_bytes ts xs))),
  predict-length ts xs h.1 (omega (arith, length-append (unit_bytes t x) (all_bytes ts xs))),
)

copy_into-two :
    (done room first second : Bytes)
    → copy_into (copy_into (done ++ room) (length done) first) (length done + length first) second
      ≡ (done ++ (first ++ second)) ++ drop (length (first ++ second)) room
copy_into-two done room first second =
    ap₂ (λ buf n. copy_into buf n second) (copy_into-end done room first)
      (sym (length-append done first))
    ∙ copy_into-end (done ++ first) (drop (length first) room) second
    ∙ ap₂ (λ xs ys. xs ++ ys) (append_assoc done first second)
        (drop-drop (length second) (length first) room
          ∙ ap (λ n. drop n room) (sym (length-append first second)))

-- A value written at the end of what is written already, into the room that is left.
serialize_unit-end :
    (done room : Bytes) (t : ArgType) (x : Arg t)
    → IsValue t x
    → length (unit_bytes t x) < size_mod
    → serialize_unit (done ++ room) (length done) t x
      ≡ ((done ++ unit_bytes t x) ++ drop (length (unit_bytes t x)) room, length (unit_bytes t x))
unfolding serialize_unit unit_bytes IsValue
serialize_unit-end done room (pod size) (object bytes) h fits =
    ap₂ (λ buf n. (buf, n)) (copy_into-end done room bytes) (sym h)
serialize_unit-end done room (vector size) (elements es) h fits =
    ap₂ (λ buf n. (buf, n)) (copy_into-two done room (size_bytes (length es)) (concat es))
      (omega (arith, length-concat size es h.1))

serialize_to_buf-end :
    (done room : Bytes) (ts : List ArgType) (xs : Args ts)
    → AreValues ts xs
    → length (all_bytes ts xs) < size_mod
    → serialize_to_buf (done ++ room) (length done) ts xs
      ≡ (done ++ all_bytes ts xs) ++ drop (length (all_bytes ts xs)) room
unfolding serialize_to_buf all_bytes AreValues
serialize_to_buf-end done room [] xs h fits = ap (λ xs. xs ++ room) (sym (append-nil done))
serialize_to_buf-end done room (t ∷ ts) (x, xs) h fits =
    let first = unit_bytes t x in
    let others = all_bytes ts xs in
    ap (λ w. serialize_to_buf w.0 (length done + w.1) ts xs)
      (serialize_unit-end done room t x h.0 (omega (arith, length-append first others)))
    ∙ ap (λ n. serialize_to_buf ((done ++ first) ++ drop (length first) room) n ts xs)
        (sym (length-append done first))
    ∙ serialize_to_buf-end (done ++ first) (drop (length first) room) ts xs h.1
        (omega (arith, length-append first others))
    ∙ ap₂ (λ xs ys. xs ++ ys) (append_assoc done first others)
        (drop-drop (length others) (length first) room
          ∙ ap (λ n. drop n room) (sym (length-append first others)))

-- The buffer of the predicted size is filled exactly, by the values one after another.
pub serialize-all_bytes :
    (ts : List ArgType) (xs : Args ts)
    → AreValues ts xs
    → length (all_bytes ts xs) < size_mod
    → serialize ts xs ≡ all_bytes ts xs
unfolding serialize
serialize-all_bytes ts xs h fits =
    let room = replicate (predict ts xs) 0 in
    serialize_to_buf-end [] room ts xs h fits
    ∙ ap (λ tail. all_bytes ts xs ++ tail)
        (drop_all (length (all_bytes ts xs)) room
          (omega (arith, length-replicate {A = ℕ} (predict ts xs) 0, predict-length ts xs h fits)))
    ∙ append-nil (all_bytes ts xs)

read_bytes-sized :
    (size : ℕ) (bytes rest : Bytes)
    → length bytes ≡ size
    → read_bytes size (bytes ++ rest) ≡ ok bytes
read_bytes-sized size bytes rest h =
    ap (λ n. read_bytes n (bytes ++ rest)) (sym h) ∙ read_bytes-append bytes rest

drop-sized :
    (size : ℕ) (bytes rest : Bytes) → length bytes ≡ size → drop size (bytes ++ rest) ≡ rest
drop-sized size bytes rest h =
    let e : size - length bytes ≡ 0 = omega arith in
    drop-append_ge size bytes rest (omega arith) ∙ ap (λ n. drop n rest) e

read_elements-concat :
    (size : ℕ) (es : List Bytes) (rest : Bytes)
    → All (λ e. length e ≡ size) es
    → read_elements (length es) size (concat es ++ rest) ≡ ok es
unfolding read_elements
read_elements-concat size [] rest h = refl
read_elements-concat size (e ∷ es) rest (h, hs) = rw (
  append_assoc e (concat es) rest,
  read_bytes-sized size e (concat es ++ rest) h,
  drop-sized size e (concat es ++ rest) h,
  read_elements-concat size es rest hs,
)

deserialize_unit-bytes :
    (t : ArgType) (x : Arg t) (rest : Bytes)
    → IsValue t x
    → length (unit_bytes t x) < size_mod
    → deserialize_unit (unit_bytes t x ++ rest) t ≡ ok (x, length (unit_bytes t x))
unfolding deserialize_unit unit_bytes IsValue
deserialize_unit-bytes (pod size) (object bytes) rest h fits =
    rw (read_bytes-sized size bytes rest h, h)
deserialize_unit-bytes (vector size) (elements es) rest (n, h) fits =
    let e : size_add (size_mul (length es) size) 8 ≡ length (size_bytes (length es) ++ concat es) =
      omega (arith, length-concat size es h) in
    rw (size_bytes_join (length es) n, read_elements-concat size es rest h, e)

deserialize-all_bytes :
    (ts : List ArgType) (xs : Args ts) (rest : Bytes)
    → AreValues ts xs
    → length (all_bytes ts xs) < size_mod
    → deserialize (all_bytes ts xs ++ rest) ts ≡ ok xs
unfolding deserialize all_bytes AreValues
deserialize-all_bytes [] xs rest h fits = refl
deserialize-all_bytes (t ∷ ts) (x, xs) rest h fits =
    let first = unit_bytes t x in
    let others = all_bytes ts xs in
    rw (
      append_assoc first others rest,
      deserialize_unit-bytes t x (others ++ rest) h.0 (omega (arith, length-append first others)),
      drop-sized (length first) first (others ++ rest) refl,
      deserialize-all_bytes ts xs rest h.1 (omega (arith, length-append first others)),
    )

-- Values of contiguous types that take less than 2 ^ 64 bytes together are read back from what
-- their serialization wrote, whatever follows it.
pub deserialize-serialize :
    (ts : List ArgType) (xs : Args ts) (rest : Bytes)
    → AreValues ts xs
    → length (all_bytes ts xs) < size_mod
    → deserialize (serialize ts xs ++ rest) ts ≡ ok xs
deserialize-serialize ts xs rest h fits =
    ap (λ buf. deserialize (buf ++ rest) ts) (serialize-all_bytes ts xs h fits)
    ∙ deserialize-all_bytes ts xs rest h fits
