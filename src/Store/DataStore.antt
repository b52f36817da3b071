-- ===== src/Store/DataStore.antt =====
-- ActiveBSP/src/future/DataStore.cpp: the parts of distributed vectors that a process holds. Each
-- operation runs under the store's own mutex from its first line to its return, so it is one step.
-- A failed `assert` is a fault. `data()` of an empty vector, which C++ leaves open, is the null
-- pointer, as in libstdc++.
pub mod Invariant
pub mod Assembly
use activebsp.Base.{
  ℕ, ◌+◌, ◌-◌, Bool, true, false, ◌&&◌, ◌||◌, Option, none, some, List, [], ◌∷◌, Map, empty_map,
  assign, erase, insert_new, has_key, not, length, replicate, copy_into, leb, ltb, if◌then◌else◌,
  Result, ok, fault, assertion, ◌>>=◌, size_add,
}

abbrev pub Bytes : Type 0
Bytes = List ℕ

-- `part_location_t`.
pub data Location : Type 0 where
  vector_store message_store : Location

-- `dv_part_t`.
pub record DvPart : Type 0 where
  pub key : ℕ
  pub size : ℕ
  pub location : Location
  pub remaining_bytes : ℕ

-- A `StoreResultMessage`, of which the store reads `getResId`, `getDataSize` and `getData`.
pub record StoredMessage : Type 0 where
  pub resid : ℕ
  pub data_size : ℕ
  pub payload : Bytes

pub record DataStore : Type 0 where
  pub result_vector_store : Map Bytes
  pub result_msg_store : Map StoredMessage
  pub dv_parts : Map DvPart

unfoldable pub data_store : DataStore
data_store = record {
  result_vector_store = empty_map;
  result_msg_store = empty_map;
  dv_parts = empty_map;
}

-- `storePartMessage`: the insertion of the message is not checked, that of the part is.
unfoldable pub store_part_message : DataStore → ℕ → StoredMessage → Result DataStore
store_part_message d key msg =
    let messages = insert_new key msg d.result_msg_store in
    let part : DvPart = record {
      key = msg.resid;
      size = msg.data_size;
      location = message_store;
      remaining_bytes = 0;
    } in
    if has_key d.dv_parts key
    then fault assertion
    else ok (record d { result_msg_store = messages; dv_parts = assign key part d.dv_parts })

-- `storePartVector`.
unfoldable pub store_part_vector : DataStore → ℕ → Bytes → Result DataStore
store_part_vector d key v =
    let part : DvPart = record {
      key = key;
      size = length v;
      location = vector_store;
      remaining_bytes = 0;
    } in
    if has_key d.result_vector_store key || has_key d.dv_parts key
    then fault assertion
    else ok (record d {
      result_vector_store = assign key v d.result_vector_store;
      dv_parts = assign key part d.dv_parts;
    })

-- `preparePartVector`: room for `size` bytes, all still missing.
unfoldable pub prepare_part_vector : DataStore → ℕ → ℕ → Result DataStore
prepare_part_vector d key size =
    let part : DvPart = record {
      key = key;
      size = size;
      location = vector_store;
      remaining_bytes = size;
    } in
    if has_key d.dv_parts key || has_key d.result_vector_store key
    then fault assertion
    else ok (record d {
      result_vector_store = assign key (replicate size 0) d.result_vector_store;
      dv_parts = assign key part d.dv_parts;
    })

find_at : DataStore → ℕ → Location → Result Bytes
find_at d key vector_store = elim (d.result_vector_store key) [
  | none ↦ fault assertion
  | some v ↦ ok v
]
find_at d key message_store = elim (d.result_msg_store key) [
  | none ↦ fault assertion
  | some msg ↦ ok msg.payload
]

-- `findDataBuf`: the buffer of a part, wherever it lies.
unfoldable pub find_data_buf : DataStore → ℕ → Result Bytes
unfolding find_at
find_data_buf d key = elim (d.dv_parts key) [
  | none ↦ fault assertion
  | some part ↦ find_at d key part.location
]

-- Whether the pointer to the buffer is null: the payload of a message lies within its buffer.
abbrev pub is_null : Location → Bytes → Bool
is_null vector_store [] = true
is_null _ buf = false

-- The buffer that `findDataBuf` points to, written over.
write_data_buf : DataStore → ℕ → Location → Bytes → DataStore
write_data_buf d key vector_store buf = record d {
  result_vector_store = assign key buf d.result_vector_store;
}
write_data_buf d key message_store buf = elim (d.result_msg_store key) [
  | none ↦ d
  | some msg ↦ record d {
    result_msg_store = assign key (record msg { payload = buf }) d.result_msg_store;
  }
]

add_to_part : DataStore → ℕ → DvPart → Bytes → Bytes → ℕ → Result (ℕ × DataStore)
unfolding write_data_buf
add_to_part d key part buf bytes offset =
    let size = length bytes in
    let left = part.remaining_bytes - size in
    let e = write_data_buf d key part.location (copy_into buf offset bytes) in
    if leb (size_add offset size) part.size && leb size part.remaining_bytes
    then ok (
      left,
      record e { dv_parts = assign key (record part { remaining_bytes = left }) e.dv_parts },
    )
    else fault assertion

-- `addData(key, data, offset, size)`: copies `size` bytes into the part and returns how many are
-- still missing. The bytes of `data` are the last argument but one, and `size` is their number.
unfoldable pub add_data : DataStore → ℕ → Bytes → ℕ → Result (ℕ × DataStore)
unfolding find_data_buf add_to_part
add_data d key bytes offset = elim (d.dv_parts key) [
  | none ↦ fault assertion
  | some part ↦ find_data_buf d key >>= λ buf.
      let added = add_to_part d key part buf bytes offset in
      if is_null part.location buf then fault assertion else added
]

remove_at : DataStore → ℕ → Location → Result DataStore
remove_at d key message_store =
    if has_key d.result_msg_store key
    then ok (record d {
      result_msg_store = erase key d.result_msg_store;
      dv_parts = erase key d.dv_parts;
    })
    else fault assertion
remove_at d key vector_store =
    if has_key d.result_vector_store key
    then ok (record d {
      result_vector_store = erase key d.result_vector_store;
      dv_parts = erase key d.dv_parts;
    })
    else fault assertion

-- `removePart`.
unfoldable pub remove_part : DataStore → ℕ → Result DataStore
unfolding remove_at
remove_part d key = elim (d.dv_parts key) [
  | none ↦ fault assertion
  | some part ↦ remove_at d key part.location
]

-- `getPartData`: `none` (the null pointer) for a part that is absent or incomplete, or whose buffer
-- is an empty vector, else its buffer and its size.
unfoldable pub get_part_data : DataStore → ℕ → Result (Option (Bytes × ℕ))
unfolding find_data_buf
get_part_data d key = elim (d.dv_parts key) [
  | none ↦ ok none
  | some part ↦
      if ltb 0 part.remaining_bytes
      then ok none
      else find_data_buf d key >>= λ buf.
          ok (if is_null part.location buf then none else some (buf, part.size))
]
