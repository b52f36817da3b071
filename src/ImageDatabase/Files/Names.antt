-- ===== src/ImageDatabase/Files/Names.antt =====
-- The paths of the files of an image database.
use activebsp.Base.{
  ℕ, zero, suc, ◌-◌, ◌+◌, ◌<◌, ◌≤◌, ◌≡◌, refl, sym, ap, ◌∙◌, arith, ◌==◌, [], ◌∷◌, ◌++◌, length,
  length-append, take, drop, take_all, All, some, ltb, true, false, append_assoc, ok, size_mod,
  ==_refl, Bool-cases, inl, inr,
}
use activebsp.Store.DataStore.{Bytes}
use activebsp.ImageDatabase.Buckets.{same, same_eq}
use activebsp.ImageDatabase.Files.{
  slash, imgdb, FileSystem, write_file, c_string, last_byte, load_dir, save_dir, path_of, file_path,
}

pub same_refl : (xs : Bytes) → same xs xs ≡ true
same_refl [] = refl
same_refl (x ∷ xs) = rw (==_refl x) (same_refl xs)

pub write_file-here :
    (name bytes : Bytes) (files : FileSystem) → write_file name bytes files name ≡ some bytes
unfolding write_file
write_file-here name bytes files = rw (same_refl name) refl

pub write_file-elsewhere :
    (name bytes other : Bytes) (files : FileSystem)
    → (name ≡ other → ⊥)
    → write_file name bytes files other ≡ files other
unfolding write_file
write_file-elsewhere name bytes other files differ = elim (Bool-cases (same name other)) [
  | inl e ↦ absurd (differ (same_eq name other e))
  | inr e ↦ rw e refl
]

drop-length : (xs ys : Bytes) → drop (length xs) (xs ++ ys) ≡ ys
drop-length [] ys = refl
drop-length (x ∷ xs) ys = drop-length xs ys

-- What is relied on: `snprintf` prints different numbers differently, the paths of `count + 1` files
-- of each of `p` processes fit, and the directory is a text without a slash at its end.
pub record IsNamed (path_max : ℕ) (file_name : ℕ → ℕ → Bytes) (dir : Bytes) (count p : ℕ)
    : Type 0 where
  pub distinct : (i s j r : ℕ) → file_name i s ≡ file_name j r → (i ≡ j) × (s ≡ r)
  pub fits : (i s : ℕ) → i ≤ count → s < p → length dir + 8 + length (file_name i s) ≤ path_max
  pub some_process : 0 < p
  pub few : count < size_mod
  pub text : All (λ b. 0 < b) dir
  pub last : ℕ
  pub ends : last_byte dir ≡ ok last
  pub no_slash : (last == slash) ≡ false

c_string-text : (xs ys : Bytes) → All (λ b. 0 < b) xs → c_string (xs ++ ys) ≡ xs ++ c_string ys
c_string-text [] ys h = refl
c_string-text (zero ∷ xs) ys (h, hs) = absurd (omega (arith, h))
c_string-text (suc x ∷ xs) ys (h, hs) = ap (◌∷◌ (suc x)) (c_string-text xs ys hs)

module _ (path_max : ℕ) (file_name : ℕ → ℕ → Bytes) (dir : Bytes) (count p : ℕ)
    (v : IsNamed path_max file_name dir count p) where
  abbrev pub path : Bytes
  path = dir ++ (slash ∷ [])

  abbrev pub full_name : ℕ → ℕ → Bytes
  full_name i s = path ++ (imgdb ++ file_name i s)

  pub path_of-save_dir : path_of path_max file_name (save_dir dir) ≡ ok path
  unfolding path_of save_dir
  path_of-save_dir =
      let text = c_string-text dir (slash ∷ []) v.text in
      let short : ltb (length (dir ++ (slash ∷ []))) path_max ≡ true =
        ground (arith, length-append dir (slash ∷ []), v.fits 0 0 (omega arith) v.some_process) in
      rw (text, short) refl

  pub load_dir-save_dir : load_dir dir ≡ ok (save_dir dir)
  unfolding load_dir save_dir
  load_dir-save_dir = rw (v.ends, v.no_slash) refl

  pub full_name-distinct : (i s j r : ℕ) → full_name i s ≡ full_name j r → (i ≡ j) × (s ≡ r)
  full_name-distinct i s j r e =
      let after =
        sym (drop-length path (imgdb ++ file_name i s))
        ∙ ap (drop (length path)) e
        ∙ drop-length path (imgdb ++ file_name j r) in
      v.distinct i s j r (ap (drop 6) after)

  pub file_path-full_name :
      (i s : ℕ) → i ≤ count → s < p → file_path path_max file_name path i s ≡ ok (full_name i s)
  unfolding file_path
  file_path-full_name i s few inside =
      let long : length path ≡ length dir + 1 = length-append dir (slash ∷ []) in
      let room = v.fits i s few inside in
      let fits : ltb path_max (length path + 6) ≡ false = ground (arith, long, room) in
      let prefix : take (path_max - length path - 1) imgdb ≡ imgdb =
        take_all (path_max - length path - 1) imgdb (omega (arith, long, room)) in
      let kept : take (length path + 6) (path ++ imgdb) ≡ path ++ imgdb =
        take_all (length path + 6) (path ++ imgdb) (omega (arith, length-append path imgdb)) in
      let name : take (path_max - (length path + 6) - 1) (file_name i s) ≡ file_name i s =
        take_all (path_max - (length path + 6) - 1) (file_name i s) (omega (arith, long, room)) in
      rw (fits, prefix, kept, name) (ap ok (append_assoc path imgdb (file_name i s)))
