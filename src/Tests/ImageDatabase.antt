-- ===== src/Tests/ImageDatabase.antt =====
-- The image database at concrete inputs.
use activebsp.Base.{
  ℕ, ◌+◌, ◌≡◌, ◌<◌, refl, arith, List, [], ◌∷◌, All, Any, length, slice, Bool, ok, fault,
  out_of_bounds, length_error,
}
use activebsp.Pieces.{Chunk, copy_all}
use activebsp.Store.DataStore.{Bytes}
use activebsp.ImageDatabase.{
  Member, block_of, image_database, bsp_set_img_params, database, bsp_exist,
}
use activebsp.ImageDatabase.Slots.{IsRoomy, database_impossible}
use activebsp.ImageDatabase.Delivery.{Delivers}
use activebsp.ImageDatabase.Buckets.{occurs}
use activebsp.ImageDatabase.Represents.{empty_member, set_img_params-Represents}
use activebsp.ImageDatabase.History.{inserted, exist_after_inserts}
use activebsp.ImageDatabase.Sequential.{insert_seq}
use activebsp.ImageDatabase.Sequential.Overrun.{insert_seq_overruns}

-- Puts that are copied in the order in which they were made.
abbrev pub in_order : List Chunk → Bytes → Bytes
in_order puts buf = copy_all buf puts

pub in_order-Delivers : Delivers in_order
in_order-Delivers = record {
  order = λ puts buf. puts;
  copied = λ puts buf fits. refl;
  only = λ puts buf P h. h;
  each = λ puts buf P h. h;
}

pub two-IsRoomy : IsRoomy 2
unfolding block_of
two-IsRoomy = record { some_process = omega arith; few = omega arith; room = omega arith }

abbrev pub sum : Bytes → ℕ
sum [] = 0
sum (x ∷ xs) = x + sum xs

abbrev pub first_image : Bytes
first_image = 10 ∷ 20 ∷ 30 ∷ 40 ∷ []

abbrev pub second_image : Bytes
second_image = 10 ∷ 20 ∷ 40 ∷ 30 ∷ []

abbrev pub third_image : Bytes
third_image = 1 ∷ 2 ∷ 3 ∷ 4 ∷ []

exist_after_inserts_example :
    (fresh ms ms' : List Member) × (found : List (List Bool)) × (database 2 2 2 0 2 ≡ ok fresh)
    × (inserted sum sum in_order (second_image ∷ third_image ∷ third_image ∷ []) fresh ≡ ok ms)
    × (bsp_exist sum sum in_order (λ offset size. slice offset size first_image) ms
        ≡ ok (ms', found))
    × (All
        (λ puts.
          All (λ x. x ≡ occurs first_image (second_image ∷ third_image ∷ third_image ∷ [])) puts)
        found)
    × (Any (λ puts. 0 < length puts) found)
exist_after_inserts_example =
    exist_after_inserts sum sum in_order 4 2 two-IsRoomy in_order-Delivers 2 2
      (second_image ∷ third_image ∷ third_image ∷ []) first_image refl (omega arith)
      (refl, (refl, (refl, tt))) refl

abbrev new_head : Member
new_head = bsp_set_img_params 2 2 (empty_member sum sum 4 2 0)

insert_seq_overruns_example :
    insert_seq sum sum in_order third_image (new_head ∷ []) ≡ fault out_of_bounds
insert_seq_overruns_example =
    insert_seq_overruns sum sum in_order 4 2 two-IsRoomy in_order-Delivers [] new_head []
      third_image (omega arith) (omega arith) (omega arith)
      (set_img_params-Represents sum sum 4 2 0 2 2 two-IsRoomy refl (omega arith) (omega arith))
      refl

-- On 200 processes the last one begins at 62 * 199 = 12338.
database_impossible_example : image_database 199 200 ≡ fault length_error
unfolding block_of
database_impossible_example = database_impossible 199 200 (omega arith) (omega arith) (omega arith)
