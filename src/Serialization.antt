-- ===== src/Serialization.antt =====
-- ActiveBSP/include/serialization: the arguments and results of a call as bytes, for the types that
-- `are_contiguous` accepts: plain types and vectors of them. Other types go to Boost.
pub mod RoundTrip
pub mod Calls
use activebsp.Base.{
  ℕ, zero, suc, ◌+◌, ◌*◌, List, [], ◌∷◌, ◌++◌, length, drop, replicate, copy_into, size_add,
  size_mul, Result, ok, ◌>>=◌,
}
use activebsp.Store.DataStore.{Bytes}
use activebsp.Message.Fields.{size_bytes, read_size, read_bytes}

-- A type: a plain one of `sizeof(T)` bytes, or a vector of these.
pub data ArgType : Type 0 where
  pod : ℕ → ArgType
  vector : ℕ → ArgType

-- A value of a type: the bytes of the object, or of the elements.
pub data Arg : ArgType → Type 0 where
  object : {size : ℕ} → Bytes → Arg (pod size)
  elements : {size : ℕ} → List Bytes → Arg (vector size)

-- The arguments of a pack of types.
abbrev pub Args : List ArgType → Type 0
Args [] = Unit
Args (t ∷ ts) = Arg t × Args ts

-- `predict_contiguous_unit_serialization_size`.
unfoldable pub predict_unit : (t : ArgType) → Arg t → ℕ
predict_unit (pod size) (object bytes) = size
predict_unit (vector size) (elements es) = size_add 8 (size_mul (length es) size)

-- `predict_contiguous_serialization_size`.
unfoldable pub predict : (ts : List ArgType) → Args ts → ℕ
unfolding predict_unit
predict [] args = 0
predict (t ∷ ts) (x, xs) = size_add (predict_unit t x) (predict ts xs)

-- The bytes of an array.
abbrev pub concat : List Bytes → Bytes
concat [] = []
concat (e ∷ es) = e ++ concat es

-- `contiguous_serialize_unit_to_buf`, at a position of the buffer: the buffer and how far it wrote.
unfoldable pub serialize_unit : Bytes → ℕ → (t : ArgType) → Arg t → Bytes × ℕ
serialize_unit buf at (pod size) (object bytes) = (copy_into buf at bytes, size)
serialize_unit buf at (vector size) (elements es) =
    let sized = copy_into buf at (size_bytes (length es)) in
    (copy_into sized (at + 8) (concat es), size_add (size_mul (length es) size) 8)

-- `contiguous_serialize_all_to_buf`.
unfoldable pub serialize_to_buf : Bytes → ℕ → (ts : List ArgType) → Args ts → Bytes
unfolding serialize_unit
serialize_to_buf buf at [] args = buf
serialize_to_buf buf at (t ∷ ts) (x, xs) =
    let (next, offset) = serialize_unit buf at t x in serialize_to_buf next (at + offset) ts xs

-- `serialize_all_to_vchar`.
unfoldable pub serialize : (ts : List ArgType) → Args ts → Bytes
unfolding predict serialize_to_buf
serialize ts xs = serialize_to_buf (replicate (predict ts xs) 0) 0 ts xs

-- The elements of `size` bytes each that a copy into a vector of `n` elements fills.
unfoldable pub read_elements : ℕ → ℕ → Bytes → Result (List Bytes)
read_elements zero size buf = ok []
read_elements (suc n) size buf =
    read_bytes size buf >>= λ e. read_elements n size (drop size buf) >>= λ es. ok (e ∷ es)

-- `contiguous_deserialize_unit`: the value and how far it read.
unfoldable pub deserialize_unit : Bytes → (t : ArgType) → Result (Arg t × ℕ)
unfolding read_elements
deserialize_unit buf (pod size) = read_bytes size buf >>= λ bytes. ok (object bytes, size)
deserialize_unit buf (vector size) = read_size buf >>= λ n.
    read_elements n size (drop 8 buf) >>= λ es. ok (elements es, size_add (size_mul n size) 8)

-- `contiguous_deserialize_all`.
unfoldable pub deserialize : Bytes → (ts : List ArgType) → Result (Args ts)
unfolding deserialize_unit
deserialize buf [] = ok tt
deserialize buf (t ∷ ts) =
    deserialize_unit buf t >>= λ read. deserialize (drop read.1 buf) ts >>= λ xs. ok (read.0, xs)
