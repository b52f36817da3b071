-- ===== src/Store/DataStore/Assembly.antt =====
-- A part that arrives in chunks: `preparePartVector` and a sequence of `addData`.
use activebsp.Base.{
  ◌==◌, false, ℕ, ◌+◌, ◌-◌, ◌≤◌, ◌<◌, ◌≡◌, refl, ◌⊎◌, inl, inr, none, some, List, [], ◌∷◌, arith,
  All, length, length-replicate, length-copy_into, replicate, copy_into, get_elem?, eq_of_get_elem?,
  assign, ltb, if◌then◌else◌, size_mod, Result, ok, ◌>>=◌, ◌∙◌,
}
use activebsp.Pieces.{Chunk, total, IsPieceOf, Covers, agree_after}
use activebsp.Store.DataStore.{
  Bytes, vector_store, DataStore, prepare_part_vector, find_at, add_data, get_part_data,
}

unfoldable pub add_all : DataStore → ℕ → List Chunk → Result DataStore
add_all d key [] = ok d
add_all d key (c ∷ cs) = add_data d key c.bytes c.offset >>= λ (left, d'). add_all d' key cs

-- The part is in the vector store, holds `buf` and misses `left` bytes.
pub record Holds (d : DataStore) (key : ℕ) (buf : Bytes) (left : ℕ) : Type 0 where
  pub part :
      d.dv_parts key
      ≡ some
          (record { key = key; size = length buf; location = vector_store; remaining_bytes = left })
  pub buffer : d.result_vector_store key ≡ some buf

pub add_data-Holds :
    {d : DataStore} {key left : ℕ} {buf : Bytes} (c : Chunk)
    → Holds d key buf left
    → 0 < length buf
    → length buf < size_mod
    → c.offset + length c.bytes ≤ length buf
    → length c.bytes ≤ left
    → (d' : DataStore) × (add_data d key c.bytes c.offset ≡ ok (left - length c.bytes, d'))
      × Holds d' key (copy_into buf c.offset c.bytes) (left - length c.bytes)
unfolding add_data find_at
add_data-Holds {d} {key} {left} {buf} c h more small fits enough = (
  record d {
    result_vector_store = assign key (copy_into buf c.offset c.bytes) d.result_vector_store;
    dv_parts =
        assign key
          (record {
            key = key;
            size = length buf;
            location = vector_store;
            remaining_bytes = left - length c.bytes;
          })
          d.dv_parts;
  },
  ground arith,
  record {
    part = ground (arith, length-copy_into buf c.offset c.bytes fits);
    buffer = ground arith;
  },
)

-- After a sequence of pieces that the part has room for, the buffer agrees with the whole wherever
-- a piece covers it or it agreed before, and the missing bytes are counted off.
add_all-Holds :
    (whole : Bytes) (cs : List Chunk) (d : DataStore) (key left : ℕ) (buf : Bytes)
    → Holds d key buf left
    → 0 < length whole
    → length whole < size_mod
    → length buf ≡ length whole
    → All (IsPieceOf whole) cs
    → total cs ≤ left
    → (d' : DataStore) × (buf' : Bytes) × (add_all d key cs ≡ ok d')
      × Holds d' key buf' (left - total cs)
      × (length buf' ≡ length whole)
      × ((i : ℕ)
          → Covers cs i ⊎ (get_elem? buf i ≡ get_elem? whole i)
          → get_elem? buf' i ≡ get_elem? whole i)
unfolding add_all
add_all-Holds whole [] d key left buf h more small e p room =
    let same : left ≡ left - 0 = omega arith in
    (
      d,
      buf,
      refl,
      rw (← same) h,
      e,
      λ i c. elim c [ inl no_cover ↦ absurd no_cover | inr old ↦ old ],
    )
add_all-Holds whole (c ∷ cs) d key left buf h more small e p room =
    let (d1, added, held) =
      add_data-Holds c h (omega arith) (omega arith) (omega arith) (omega arith) in
    let next : Bytes = copy_into buf c.offset c.bytes in
    let sized : length next ≡ length whole =
      length-copy_into buf c.offset c.bytes (omega arith) ∙ e in
    let (d2, buf2, rest, held2, size2, agree) =
      add_all-Holds whole cs d1 key (left - length c.bytes) next held more small sized p.1
        (omega arith) in
    let count : left - length c.bytes - total cs ≡ left - (length c.bytes + total cs) =
      omega arith in
    (
      d2,
      buf2,
      rw added rest,
      rw (← count) held2,
      size2,
      λ i cover. agree i (elim cover [
        | inl (inl now) ↦ inr (agree_after whole buf c i e p.0 (inl now))
        | inl (inr later) ↦ inl later
        | inr old ↦ inr (agree_after whole buf c i e p.0 (inr old))
      ]),
    )

pub get_part_data-Holds :
    {d : DataStore} {key left : ℕ} {buf : Bytes}
    → Holds d key buf left
    → get_part_data d key
      ≡ ok (if ltb 0 left then none else if length buf == 0 then none else some (buf, length buf))
unfolding get_part_data find_at
get_part_data-Holds {buf = []} h = ground (arith, h.part, h.buffer)
get_part_data-Holds {buf = b ∷ bytes} h = ground (arith, h.part, h.buffer)

pub prepare_part_vector-Holds :
    (d : DataStore) (key n : ℕ)
    → d.dv_parts key ≡ none
    → d.result_vector_store key ≡ none
    → (d' : DataStore) × (prepare_part_vector d key n ≡ ok d') × Holds d' key (replicate n 0) n
unfolding prepare_part_vector
prepare_part_vector-Holds d key n e f = (
  record d {
    result_vector_store = assign key (replicate n 0) d.result_vector_store;
    dv_parts =
        assign key (record { key = key; size = n; location = vector_store; remaining_bytes = n })
          d.dv_parts;
  },
  ground arith,
  record { part = ground (arith, length-replicate {A = ℕ} n 0); buffer = ground arith },
)

module _ (d : DataStore) (key : ℕ) (whole : Bytes) (cs : List Chunk) where
  -- A part is prepared under a key that is free, with room for a whole of one byte at least and fewer than 2 ^ 64. If pieces
  -- of the whole are then added in any order, together as long as the whole and covering each of its
  -- bytes, then no operation fails and the part is available and is the whole.
  pub assembled :
      d.dv_parts key ≡ none
      → d.result_vector_store key ≡ none
      → 0 < length whole
      → length whole < size_mod
      → All (IsPieceOf whole) cs
      → total cs ≡ length whole
      → ((i : ℕ) → i < length whole → Covers cs i)
      → (prepare_part_vector d key (length whole) >>= λ d1.
          add_all d1 key cs >>= λ d2. get_part_data d2 key)
        ≡ ok (some (whole, length whole))
  assembled e f more small pieces full covers =
      let (d1, prepared, held) = prepare_part_vector-Holds d key (length whole) e f in
      let empty : Bytes = replicate (length whole) 0 in
      let sized : length empty ≡ length whole = length-replicate (length whole) 0 in
      let (d2, buf, added, held2, size2, agree) =
        add_all-Holds whole cs d1 key (length whole) empty held more small sized pieces
          (omega arith) in
      let same : buf ≡ whole =
        eq_of_get_elem? buf whole size2
          (λ i lt. agree i (inl (covers i (omega (arith, size2, lt))))) in
      let none_left : length whole - total cs ≡ 0 = omega arith in
      let some_byte : (length whole == 0) ≡ false = ground (arith, more) in
      rw (prepared, added, get_part_data-Holds held2, none_left, same, some_byte) refl

  -- As long as the pieces added do not make up the whole, the part is not available.
  pub not_before_complete :
      d.dv_parts key ≡ none
      → d.result_vector_store key ≡ none
      → length whole < size_mod
      → All (IsPieceOf whole) cs
      → total cs < length whole
      → (prepare_part_vector d key (length whole) >>= λ d1.
          add_all d1 key cs >>= λ d2. get_part_data d2 key)
        ≡ ok none
  not_before_complete e f small pieces short =
      let more : 0 < length whole = omega (arith, short) in
      let (d1, prepared, held) = prepare_part_vector-Holds d key (length whole) e f in
      let empty : Bytes = replicate (length whole) 0 in
      let sized : length empty ≡ length whole = length-replicate (length whole) 0 in
      let (d2, buf, added, held2, size2, agree) =
        add_all-Holds whole cs d1 key (length whole) empty held more small sized pieces
          (omega arith) in
      rw (prepared, added, get_part_data-Holds held2) (ground arith)
