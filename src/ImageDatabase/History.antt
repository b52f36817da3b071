-- ===== src/ImageDatabase/History.antt =====
-- That the database finds exactly the images that were inserted.
use activebsp.ImageDatabase.Inserts.{bsp_insert-Represents, bsp_exist_lem}
use activebsp.Base.{
  ℕ, zero, suc, ◌+◌, ◌*◌, ◌<◌, ◌≤◌, ◌≡◌, refl, ap, arith, List, [], ◌∷◌, All, Any, length, slice,
  int_min, Bool, Result, ok, ◌>>=◌,
}
use activebsp.Pieces.{Chunk}
use activebsp.Store.DataStore.{Bytes}
use activebsp.ImageDatabase.{Member, database, bsp_insert, bsp_exist}
use activebsp.ImageDatabase.Slots.{IsRoomy}
use activebsp.ImageDatabase.Delivery.{Delivers}
use activebsp.ImageDatabase.Buckets.{occurs}
use activebsp.ImageDatabase.Represents.{
  Ranked, Represents, image_database_lem, set_img_params-Represents,
}

module _ (hash_part : Bytes → ℕ) (hash_procs : Bytes → ℕ)
    (deliver : List Chunk → Bytes → Bytes) where
  -- Images inserted one after another, the latest first in the list.
  unfoldable pub inserted : List Bytes → List Member → Result (List Member)
  inserted [] ms = ok ms
  inserted (img ∷ imgs) ms = inserted imgs ms >>= λ before.
      bsp_insert hash_part hash_procs deliver (λ offset size. slice offset size img) before

  module _ (n p : ℕ) (roomy : IsRoomy p) (v : Delivers deliver) where
    pub database-Represents :
        (width height s count : ℕ)
        → n ≡ width * height
        → n < int_min
        → s + count ≤ p
        → (ms : List Member) × (database p width height s count ≡ ok ms)
          × (length ms ≡ count)
          × Ranked (Represents hash_part hash_procs n p []) s ms
    unfolding database
    database-Represents width height s zero e small h = ([], refl, refl, tt)
    database-Represents width height s (suc count) e small h =
        let (ms, later, size, rs) =
          database-Represents width height (suc s) count e small (omega arith) in
        (
          _ ∷ ms,
          rw (image_database_lem hash_part hash_procs n p s roomy (omega arith), later) refl,
          ap suc size,
          (
            set_img_params-Represents hash_part hash_procs n p s width height roomy e small
                (omega arith),
            rs,
          ),
        )

    pub inserted-Represents :
        (imgs : List Bytes) (ms : List Member)
        → All (λ img. length img ≡ n) imgs
        → length ms ≡ p
        → Ranked (Represents hash_part hash_procs n p []) 0 ms
        → (ms' : List Member) × (inserted imgs ms ≡ ok ms')
          × (length ms' ≡ p)
          × Ranked (Represents hash_part hash_procs n p imgs) 0 ms'
    unfolding inserted
    inserted-Represents [] ms sizes count h = (ms, refl, count, h)
    inserted-Represents (img ∷ imgs) ms (sized, sizes) count h =
        let (before, ran, count1, rs) = inserted-Represents imgs ms sizes count h in
        let (ms', runs, count2, end) =
          bsp_insert-Represents hash_part hash_procs n p imgs img sized roomy sizes deliver v
            (λ offset size. slice offset size img) (λ offset size fits. refl) before count1 rs in
        (ms', rw ran runs, count2, end)

    -- The actor runs on processes none of which starts behind the last hash value, and the images have
    -- the size set by `setImgParams`, which is below 2 ^ 31. The BSP library copies each put, in any order. Then the database is built, every
    -- insertion of the images `imgs` ends, and so does a query for another image. The value that the
    -- query puts for `exist` to return is put at least once and is, each time, true if the image was
    -- inserted before and false if it was not, whatever the hash functions are and however often an
    -- image was inserted.
    pub exist_after_inserts :
        (width height : ℕ) (imgs : List Bytes) (img : Bytes)
        → n ≡ width * height
        → n < int_min
        → All (λ other. length other ≡ n) imgs
        → length img ≡ n
        → (fresh ms ms' : List Member) × (found : List (List Bool)) × (database p width height 0 p
            ≡ ok fresh)
          × (inserted imgs fresh ≡ ok ms)
          × (bsp_exist hash_part hash_procs deliver (λ offset size. slice offset size img) ms
              ≡ ok (ms', found))
          × (All (λ puts. All (λ x. x ≡ occurs img imgs) puts) found)
          × (Any (λ puts. 0 < length puts) found)
    exist_after_inserts width height imgs img e small sizes sized =
        let (fresh, built, count, rs) =
          database-Represents width height 0 p e small (omega arith) in
        let (ms, ran, count1, rs1) = inserted-Represents imgs fresh sizes count rs in
        let (ms', found, runs, says, some) =
          bsp_exist_lem hash_part hash_procs n p imgs img sized roomy sizes deliver v
            (λ offset size. slice offset size img) (λ offset size fits. refl) ms count1 rs1 in
        (fresh, ms, ms', found, built, ran, runs, says, some)
