-- ===== src/ImageDatabase/Files/Saving.antt =====
-- What is in the files after `bsp_save_db`.
use activebsp.Base.{
  ℕ, zero, suc, ◌+◌, ◌*◌, ◌<◌, ◌≤◌, ◌≡◌, refl, sym, ap, subst, ◌∙◌, arith, List, [], ◌∷◌, ◌++◌,
  length, none, ok, size_mod,
}
use native.Mathlib.Decide.{dec_lt}
use activebsp.Store.DataStore.{Bytes}
use activebsp.ImageDatabase.{Member, block_of, nhash_of}
use activebsp.ImageDatabase.Slots.{IsRoomy, start_le, nhash_of_lem}
use activebsp.ImageDatabase.Buckets.{table_of}
use activebsp.ImageDatabase.Represents.{Ranked, slot_of, Represents}
use activebsp.ImageDatabase.Files.{slash, FileSystem, save_table, bsp_save_db}
use activebsp.ImageDatabase.Files.Names.{IsNamed, full_name, full_name-distinct}
use activebsp.ImageDatabase.Files.Records.{
  Record, records, Kept, save_records, length-records, save_records-elsewhere, save_records-Kept,
  Kept-unchanged, save_table-records,
}

pub length-table_of :
    (slot : Bytes → ℕ) (imgs : List Bytes) (start n : ℕ) → length (table_of slot imgs start n) ≡ n
length-table_of slot imgs start zero = refl
length-table_of slot imgs start (suc n) = ap suc (length-table_of slot imgs (suc start) n)

module _ (hash_part : Bytes → ℕ) (hash_procs : Bytes → ℕ) (n p : ℕ) (roomy : IsRoomy p)
    (imgs : List Bytes) (path_max : ℕ) (file_name : ℕ → ℕ → Bytes) (dir : Bytes)
    (v : IsNamed path_max file_name dir (length imgs) p) where
  -- The records of process `s`.
  abbrev pub table_at : ℕ → List (List Bytes)
  table_at s =
      table_of (slot_of hash_part hash_procs n p) imgs (block_of p * s)
        (nhash_of (block_of p) (block_of p * s))

  abbrev pub records_of : ℕ → List Record
  records_of s = records (block_of p * s) (table_at s)

  abbrev pub name_at : ℕ → ℕ → Bytes
  name_at = full_name path_max file_name dir (length imgs) p v

  abbrev pub KeptAt : FileSystem → ℕ → Type 0
  KeptAt files s = Kept path_max file_name dir (length imgs) p v files s 0 (records_of s)

  pub few_records : (s : ℕ) → length (records_of s) ≤ length imgs
  few_records s =
      length-records (slot_of hash_part hash_procs n p) imgs (block_of p * s)
        (nhash_of (block_of p) (block_of p * s)) (block_of p * s)

  pub table_ends : (s : ℕ) → s < p → block_of p * s + length (table_at s) < size_mod
  table_ends s h = omega (
    arith,
    length-table_of (slot_of hash_part hash_procs n p) imgs (block_of p * s)
        (nhash_of (block_of p) (block_of p * s)),
    start_le p roomy s h,
    nhash_of_lem p roomy s h,
  )

  -- Process `s` has written its files.
  abbrev after_one : ℕ → FileSystem → FileSystem
  after_one s files = save_records path_max file_name dir (length imgs) p v s 0 (records_of s) files

  after_one-others :
      (s r j : ℕ) (files : FileSystem)
      → (r ≡ s → ⊥)
      → after_one s files (name_at j r) ≡ files (name_at j r)
  after_one-others s r j files other =
      save_records-elsewhere path_max file_name dir (length imgs) p v s 0 (records_of s) files
        (name_at j r)
        (λ k past e.
          other (sym (full_name-distinct path_max file_name dir (length imgs) p v k s j r e).1))

  -- Every process has its table in its files, if there were none from another time.
  pub bsp_save_db-Kept :
      (s : ℕ) (ms : List Member) (files : FileSystem)
      → Ranked (Represents hash_part hash_procs n p imgs) s ms
      → ((i r : ℕ) → i ≤ length imgs → r < p → s ≤ r → files (name_at i r) ≡ none)
      → (files' : FileSystem) × (bsp_save_db path_max file_name (dir ++ (slash ∷ [])) ms files
          ≡ ok files')
        × ((r j : ℕ) → r < s → files' (name_at j r) ≡ files (name_at j r))
        × ((r : ℕ) → s ≤ r → r < s + length ms → KeptAt files' r)
  unfolding bsp_save_db
  bsp_save_db-Kept s [] files h free =
      (files, refl, λ r j before. refl, λ r after before. absurd (omega (arith, after, before)))
  bsp_save_db-Kept s (m ∷ ms) files (h, hs) free =
      let mine = records_of s in
      let few = few_records s in
      let saved : save_table path_max file_name (dir ++ (slash ∷ [])) m.pid m.hash_start 0
            m.hash_table files
          ≡ ok (after_one s files) =
        rw (h.pid, h.hash_start, h.hash_table)
          (save_table-records path_max file_name dir (length imgs) p v s (block_of p * s) 0
            (table_at s) files h.inside (omega (arith, few)) (table_ends s h.inside)) in
      let (files', ran, before, since) =
        bsp_save_db-Kept (suc s) ms (after_one s files) hs (λ i r few1 inside past.
          after_one-others s r i files (λ e. omega (arith, e, past))
          ∙ free i r few1 inside (omega (arith, past))) in
      let none_left : files (name_at (0 + length mine) s) ≡ none =
        free (0 + length mine) s (omega (arith, few)) h.inside (omega arith) in
      (
        files',
        rw saved ran,
        λ r j past.
            before r j (omega (arith, past))
            ∙ after_one-others s r j files (λ e. omega (arith, e, past)),
        λ r from past. elim (dec_lt s r) [
          | yes later ↦ since r (omega (arith, later)) (omega (arith, past))
          | no here ↦
              let at_s : s ≡ r = omega (arith, from, here) in
              subst (λ q. KeptAt files' q) at_s
                (Kept-unchanged path_max file_name dir (length imgs) p v s 0 mine
                  (after_one s files) files' (λ j. before s j (omega arith))
                  (save_records-Kept path_max file_name dir (length imgs) p v s 0 mine files
                    none_left))
        ],
      )
