-- ===== src/Tests/Files.antt =====
-- A database that is saved and loaded, at concrete inputs.
use activebsp.Base.{
  ℕ, zero, suc, ◌+◌, ◌==◌, if◌then◌else◌, ◌≡◌, ◌<◌, refl, sym, ap, ◌∙◌, arith, List, [], ◌∷◌, ◌++◌,
  map, All, Any, length, length-append, length-replicate, replicate, slice, none, Bool, ok,
}
use activebsp.Store.DataStore.{Bytes}
use activebsp.ImageDatabase.{Member, database, bsp_exist}
use activebsp.ImageDatabase.Buckets.{occurs}
use activebsp.ImageDatabase.History.{inserted}
use activebsp.ImageDatabase.Files.{slash, FileSystem, load_dir, save_db, load_db}
use activebsp.ImageDatabase.Files.Names.{IsNamed}
use activebsp.ImageDatabase.Files.Reload.{exist_after_reload}
use activebsp.Tests.ImageDatabase.{
  in_order, in_order-Delivers, two-IsRoomy, sum, first_image, second_image, third_image,
}

-- Numbers printed in tally marks, with "_p" between them.
abbrev tally_name : ℕ → ℕ → Bytes
tally_name i s = replicate i 49 ++ (95 ∷ 112 ∷ replicate s 49)

abbrev marks : Bytes → ℕ
marks [] = 0
marks (zero ∷ bytes) = 0
marks (suc c ∷ bytes) = if suc c == 49 then suc (marks bytes) else 0

marks-tally_name : (i s : ℕ) → marks (tally_name i s) ≡ i
marks-tally_name zero s = refl
marks-tally_name (suc i) s = ap suc (marks-tally_name i s)

length-tally_name : (i s : ℕ) → length (tally_name i s) ≡ i + 2 + s
length-tally_name i s = omega (
  arith,
  length-append {A = ℕ} (replicate i 49) (95 ∷ 112 ∷ replicate s 49),
  length-replicate {A = ℕ} i 49,
  length-replicate {A = ℕ} s 49,
)

-- "/db".
abbrev some_dir : Bytes
some_dir = 47 ∷ 100 ∷ 98 ∷ []

abbrev three_images : List Bytes
three_images = second_image ∷ third_image ∷ third_image ∷ []

names : IsNamed 64 tally_name some_dir 3 2
names = record {
  distinct = λ i s j r e.
      let same_i : i ≡ j = sym (marks-tally_name i s) ∙ ap marks e ∙ marks-tally_name j r in
      (same_i, omega (arith, same_i, ap length e, length-tally_name i s, length-tally_name j r));
  fits = λ i s few inside. omega (arith, few, inside, length-tally_name i s);
  some_process = omega arith;
  few = omega arith;
  text = (omega arith, (omega arith, (omega arith, tt)));
  last = 98;
  ends = refl;
  no_slash = refl;
}

abbrev no_files : FileSystem
no_files = λ name. none

slash_at_end : load_dir (some_dir ++ (slash ∷ [])) ≡ ok (some_dir ++ (slash ∷ []))
unfolding load_dir
slash_at_end = refl

exist_after_reload_example :
    (fresh ms loaded ms' : List Member) × (files' : FileSystem) × (found : List (List Bool))
    × (database 2 2 2 0 2 ≡ ok fresh)
    × (inserted sum sum in_order three_images fresh ≡ ok ms)
    × (save_db 64 tally_name some_dir ms no_files ≡ ok files')
    × (load_db 64 tally_name 4 some_dir files' fresh ≡ ok loaded)
    × (map (λ (m : Member). m.hash_table) loaded ≡ map (λ (m : Member). m.hash_table) ms)
    × (bsp_exist sum sum in_order (λ offset size. slice offset size first_image) loaded
        ≡ ok (ms', found))
    × (All (λ puts. All (λ x. x ≡ occurs first_image three_images) puts) found)
    × (Any (λ puts. 0 < length puts) found)
exist_after_reload_example =
    exist_after_reload sum sum in_order 4 2 two-IsRoomy in_order-Delivers 64 tally_name some_dir 2 2
      4 three_images first_image no_files names refl (omega arith) (refl, (refl, (refl, tt))) refl
      (omega arith) (λ i r few inside. refl)
