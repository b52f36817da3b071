-- ===== src/ImageDatabase/Files/Records.antt =====
-- A hash table as the files that hold it, one record for each image.
use activebsp.Base.{
  ℕ, zero, suc, ◌+◌, ◌<◌, ◌≤◌, ◌≡◌, refl, sym, ap, ◌∙◌, arith, ◌==◌, List, [], ◌∷◌, ◌++◌, length,
  length-append, none, some, ok, size_add, size_mod, Bool-cases, inl, inr,
}
use activebsp.Store.DataStore.{Bytes}
use activebsp.Message.Fields.{size_bytes}
use activebsp.ImageDatabase.Buckets.{bucket, table_of, table_of-outside}
use activebsp.ImageDatabase.Files.{FileSystem, write_file, save_entry, save_table}
use activebsp.ImageDatabase.Files.Names.{
  IsNamed, full_name, full_name-distinct, file_path-full_name, write_file-here,
  write_file-elsewhere,
}

-- An image with its hash value.
abbrev pub Record : Type 0
Record = ℕ × Bytes

abbrev pub encode : Record → Bytes
encode (hash, img) = size_bytes hash ++ img

abbrev pub entry_records : ℕ → List Bytes → List Record
entry_records hash [] = []
entry_records hash (img ∷ entry) = (hash, img) ∷ entry_records hash entry

length-entry_records :
    (hash : ℕ) (entry : List Bytes) → length (entry_records hash entry) ≡ length entry
length-entry_records hash [] = refl
length-entry_records hash (img ∷ entry) = ap suc (length-entry_records hash entry)

-- The table whose first entry is for the hash value `hash`.
abbrev pub records : ℕ → List (List Bytes) → List Record
records hash [] = []
records hash (entry ∷ table) = entry_records hash entry ++ records (suc hash) table

-- No more records than images were inserted.
module _ (slot : Bytes → ℕ) where
  length-bucket :
      (img : Bytes) (imgs : List Bytes) (k : ℕ)
      → length (bucket slot (img ∷ imgs) k) ≤ suc (length (bucket slot imgs k))
  length-bucket img imgs k =
      let longer = length-append (bucket slot imgs k) (img ∷ []) in ground (arith, longer)

  length-records-cons :
      (img : Bytes) (imgs : List Bytes) (start n hash : ℕ)
      → length (records hash (table_of slot (img ∷ imgs) start n))
        ≤ suc (length (records hash (table_of slot imgs start n)))
  length-records-cons img imgs start zero hash = omega arith
  length-records-cons img imgs start (suc n) hash =
      let rest : List (List Bytes) → List Record = λ table. records (suc hash) table in
      let size : (entry : List Bytes) (table : List (List Bytes))
          → length (records hash (entry ∷ table))
            ≡ length entry + length (records (suc hash) table) =
        λ entry table.
          length-append (entry_records hash entry) (records (suc hash) table)
          ∙ ap (λ k. k + length (records (suc hash) table)) (length-entry_records hash entry) in
      let now = size (bucket slot (img ∷ imgs) start) (table_of slot (img ∷ imgs) (suc start) n) in
      let before = size (bucket slot imgs start) (table_of slot imgs (suc start) n) in
      elim (Bool-cases (slot img == start)) [
        | inl here ↦
            let at_start : slot img ≡ start = ground (arith, here) in
            let same =
              ap (λ table. length (records (suc hash) table))
                (table_of-outside slot img imgs (suc start) n
                  (λ lo hi. omega (arith, at_start, lo))) in
            omega (arith, now, before, same, length-bucket img imgs start)
        | inr away ↦
            let ih = length-records-cons img imgs (suc start) n (suc hash) in
            let same : length (bucket slot (img ∷ imgs) start) ≡ length (bucket slot imgs start) =
              rw away refl in
            omega (arith, now, before, same, ih)
      ]

  length-records-empty : (start n hash : ℕ) → length (records hash (table_of slot [] start n)) ≡ 0
  length-records-empty start zero hash = refl
  length-records-empty start (suc n) hash = length-records-empty (suc start) n (suc hash)

  pub length-records :
      (imgs : List Bytes) (start n hash : ℕ)
      → length (records hash (table_of slot imgs start n)) ≤ length imgs
  length-records [] start n hash = omega (arith, length-records-empty start n hash)
  length-records (img ∷ imgs) start n hash =
      omega (arith, length-records-cons img imgs start n hash, length-records imgs start n hash)

module _ (path_max : ℕ) (file_name : ℕ → ℕ → Bytes) (dir : Bytes) (count p : ℕ)
    (v : IsNamed path_max file_name dir count p) where
  abbrev name_of : ℕ → ℕ → Bytes
  name_of = full_name path_max file_name dir count p v

  -- The files of process `s` from number `i` on, after which there is none.
  abbrev pub Kept : FileSystem → ℕ → ℕ → List Record → Type 0
  Kept files s i [] = files (name_of i s) ≡ none
  Kept files s i (r ∷ rs) = (files (name_of i s) ≡ some (encode r)) × Kept files s (suc i) rs

  abbrev pub save_records : ℕ → ℕ → List Record → FileSystem → FileSystem
  save_records s i [] files = files
  save_records s i (r ∷ rs) files =
      save_records s (suc i) rs (write_file (name_of i s) (encode r) files)

  save_records-append :
      (s i : ℕ) (rs rs' : List Record) (files : FileSystem)
      → save_records s i (rs ++ rs') files
        ≡ save_records s (i + length rs) rs' (save_records s i rs files)
  save_records-append s i [] rs' files = ap (λ k. save_records s k rs' files) (omega arith)
  save_records-append s i (r ∷ rs) rs' files =
      let written = write_file (name_of i s) (encode r) files in
      save_records-append s (suc i) rs rs' written
      ∙ ap (λ k. save_records s k rs' (save_records s (suc i) rs written)) (omega arith)

  pub save_records-elsewhere :
      (s i : ℕ) (rs : List Record) (files : FileSystem) (other : Bytes)
      → ((j : ℕ) → i ≤ j → name_of j s ≡ other → ⊥)
      → save_records s i rs files other ≡ files other
  save_records-elsewhere s i [] files other h = refl
  save_records-elsewhere s i (r ∷ rs) files other h =
      save_records-elsewhere s (suc i) rs (write_file (name_of i s) (encode r) files) other
        (λ j past. h j (omega arith))
      ∙ write_file-elsewhere (name_of i s) (encode r) other files (h i (omega arith))

  pub save_records-Kept :
      (s i : ℕ) (rs : List Record) (files : FileSystem)
      → files (name_of (i + length rs) s) ≡ none
      → Kept (save_records s i rs files) s i rs
  save_records-Kept s i [] files h = ap (λ k. files (name_of k s)) (omega arith) ∙ h
  save_records-Kept s i (r ∷ rs) files h =
      let written = write_file (name_of i s) (encode r) files in
      let apart : (j : ℕ) → suc i ≤ j → name_of j s ≡ name_of i s → ⊥ = λ j past e.
        omega (arith, (full_name-distinct path_max file_name dir count p v j s i s e).0) in
      let free : written (name_of (suc i + length rs) s) ≡ none =
        write_file-elsewhere (name_of i s) (encode r) (name_of (suc i + length rs) s) files
          (λ e. apart (suc i + length rs) (omega arith) (sym e))
        ∙ ap (λ k. files (name_of k s)) (omega arith)
        ∙ h in
      (
        save_records-elsewhere s (suc i) rs written (name_of i s) apart
            ∙ write_file-here (name_of i s) (encode r) files,
        save_records-Kept s (suc i) rs written free,
      )

  pub Kept-unchanged :
      (s i : ℕ) (rs : List Record) (files files' : FileSystem)
      → ((j : ℕ) → files' (name_of j s) ≡ files (name_of j s))
      → Kept files s i rs
      → Kept files' s i rs
  Kept-unchanged s i [] files files' same h = same i ∙ h
  Kept-unchanged s i (r ∷ rs) files files' same (h, hs) =
      (same i ∙ h, Kept-unchanged s (suc i) rs files files' same hs)

  save_entry-records :
      (s hash i : ℕ) (entry : List Bytes) (files : FileSystem)
      → s < p
      → i + length entry ≤ count
      → save_entry path_max file_name (dir ++ (47 ∷ [])) s hash i entry files
        ≡ ok (i + length entry, save_records s i (entry_records hash entry) files)
  unfolding save_entry
  save_entry-records s hash i [] files inside few = ap (λ k. ok (k, files)) (omega arith)
  save_entry-records s hash i (img ∷ entry) files inside few =
      let wraps : size_add i 1 ≡ suc i = omega (arith, v.few) in
      rw (file_path-full_name path_max file_name dir count p v i s (omega arith) inside, wraps)
        (save_entry-records s hash (suc i) entry
            (write_file (name_of i s) (encode (hash, img)) files) inside (omega arith)
          ∙ ap (λ k. ok (k, save_records s i (entry_records hash (img ∷ entry)) files))
              (omega arith))

  pub save_table-records :
      (s hash i : ℕ) (table : List (List Bytes)) (files : FileSystem)
      → s < p
      → i + length (records hash table) ≤ count
      → hash + length table < size_mod
      → save_table path_max file_name (dir ++ (47 ∷ [])) s hash i table files
        ≡ ok (save_records s i (records hash table) files)
  unfolding save_table
  save_table-records s hash i [] files inside few small = refl
  save_table-records s hash i (entry ∷ table) files inside few small =
      let mine = entry_records hash entry in
      let later = records (suc hash) table in
      let sizes = length-append mine later in
      let size = length-entry_records hash entry in
      let wraps : size_add hash 1 ≡ suc hash = omega (arith, small) in
      rw (save_entry-records s hash i entry files inside (omega (arith, few, sizes, size)), wraps)
        (save_table-records s (suc hash) (i + length entry) table (save_records s i mine files)
            inside (omega (arith, few, sizes, size)) (omega (arith, small))
          ∙ ap (λ k. ok (save_records s (i + k) later (save_records s i mine files))) (sym size)
          ∙ ap ok (sym (save_records-append s i mine later files)))
