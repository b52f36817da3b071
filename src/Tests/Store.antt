-- ===== src/Tests/Store.antt =====
-- The data store at concrete inputs.
use activebsp.Base.{
  ℕ, ◌≡◌, refl, ◌<◌, ◌⊎◌, inl, inr, none, some, [], ◌∷◌, arith, ok, ◌>>=◌, length, zero, suc,
  assign, empty_map,
}
use activebsp.Store.DataStore.{
  Bytes, DvPart, DataStore, data_store, prepare_part_vector, get_part_data, vector_store,
  message_store, add_data, find_data_buf,
}
use activebsp.Store.DataStore.Invariant.{
  IsValid, IsEmptyVector, adds, prepares, step, data_store-IsValid, step-IsValid, get_part_data_lem,
}
use activebsp.Pieces.{Chunk, Covers}
use activebsp.Store.DataStore.Assembly.{add_all, assembled, not_before_complete}

abbrev whole : Bytes
whole = 5 ∷ 6 ∷ 7 ∷ []

abbrev front : Chunk
front = record { offset = 0; bytes = 5 ∷ [] }

abbrev back : Chunk
back = record { offset = 1; bytes = 6 ∷ 7 ∷ [] }

-- An empty store with room for two bytes under key 4.
abbrev roomy : DataStore
roomy = record {
  result_vector_store = assign 4 (0 ∷ 0 ∷ []) empty_map;
  result_msg_store = empty_map;
  dv_parts =
      assign 4 (record { key = 4; size = 2; location = vector_store; remaining_bytes = 2 })
        empty_map;
}

roomy-IsValid : IsValid roomy
unfolding data_store step prepare_part_vector
roomy-IsValid = step-IsValid data_store (prepares 4 2) {d' = roomy} data_store-IsValid tt refl

-- The second byte has arrived.
abbrev half_full : DataStore
half_full = record roomy {
  result_vector_store = assign 4 (0 ∷ 7 ∷ []) roomy.result_vector_store;
  dv_parts =
      assign 4 (record { key = 4; size = 2; location = vector_store; remaining_bytes = 1 })
        roomy.dv_parts;
}

second_byte : step roomy (adds 4 (7 ∷ []) 1) ≡ ok half_full
unfolding step add_data find_data_buf
second_byte = refl

half_full-IsValid : IsValid half_full
half_full-IsValid =
    step-IsValid roomy (adds 4 (7 ∷ []) 1) {d' = half_full} roomy-IsValid (omega arith) second_byte

step-IsValid_example : IsValid half_full
step-IsValid_example =
    step-IsValid roomy (adds 4 (7 ∷ []) 1) {d' = half_full} roomy-IsValid (omega arith) second_byte

-- An empty part is there, and its pointer is null.
empty_part : (prepare_part_vector data_store 4 0 >>= λ d. get_part_data d 4) ≡ ok none
unfolding data_store prepare_part_vector get_part_data find_data_buf
empty_part = refl

get_part_data_lem_example :
    ((get_part_data half_full 4 ≡ ok none)
      × ((half_full.dv_parts 4 ≡ none)
          ⊎ ((p : DvPart) × (half_full.dv_parts 4 ≡ some p)
              × ((0 < p.remaining_bytes) ⊎ IsEmptyVector p))))
    ⊎ ((p : DvPart) × (buf : Bytes) × (half_full.dv_parts 4 ≡ some p)
        × (p.remaining_bytes ≡ 0)
        × (get_part_data half_full 4 ≡ ok (some (buf, p.size)))
        × (length buf ≡ p.size)
        × ((p.location ≡ message_store) ⊎ (0 < p.size)))
get_part_data_lem_example = get_part_data_lem half_full 4 half_full-IsValid

front_and_back : (i : ℕ) → i < 3 → Covers (back ∷ front ∷ []) i
front_and_back zero h = inr (inl (omega arith))
front_and_back (suc i) h = inl (omega arith)

-- The pieces arrive out of order.
assembled_example :
    (prepare_part_vector data_store 4 3 >>= λ d1.
    add_all d1 4 (back ∷ front ∷ []) >>= λ d2. get_part_data d2 4)
    ≡ ok (some (whole, 3))
unfolding data_store
assembled_example =
    assembled data_store 4 whole (back ∷ front ∷ []) refl refl (omega arith) (omega arith)
      ((omega arith, refl), ((omega arith, refl), tt)) (omega arith) front_and_back

not_before_complete_example :
    (prepare_part_vector data_store 4 3 >>= λ d1.
    add_all d1 4 (back ∷ []) >>= λ d2. get_part_data d2 4)
    ≡ ok none
unfolding data_store
not_before_complete_example =
    not_before_complete data_store 4 whole (back ∷ []) refl refl (omega arith)
      ((omega arith, refl), tt) (omega arith)
