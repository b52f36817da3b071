-- ===== src/ImageDatabase/Files/Loading.antt =====
-- What a process holds after `bsp_load_db` has read the files of a table.
use activebsp.Base.{
  ℕ, zero, suc, ◌+◌, ◌<◌, ◌≤◌, ◌≡◌, refl, sym, ap, ap₂, ◌∙◌, arith, List, [], ◌∷◌, ◌++◌,
  append_assoc, append-nil, length, length-append, replicate, take, take_all, copy_into,
  copy_into_all, All, ltb, false, size_add, size_sub, size_mod, Result, ok, ◌>>=◌, >>=-eq-ok,
}
use activebsp.Store.DataStore.{Bytes}
use activebsp.Message.Fields.{size_bytes_join}
use activebsp.ImageDatabase.{Member, entry_at, set_entry}
use activebsp.ImageDatabase.Files.{slash, FileSystem, load_file, bsp_load_db}
use activebsp.ImageDatabase.Files.Names.{IsNamed, file_path-full_name}
use activebsp.ImageDatabase.Files.Records.{Record, encode, entry_records, records, Kept}

-- The process with a buffer, thumbnails and a table of its own.
abbrev pub filled : Member → Bytes → List Bytes → List (List Bytes) → Member
filled m buf thumbnails table = record m {
  thumbnail_buf = buf;
  thumbnails = thumbnails;
  hash_table = table;
}

-- The table when the images of the records have gone into it.
abbrev pub refill : ℕ → List Record → List (List Bytes) → Result (List (List Bytes))
refill start [] table = ok table
refill start ((hash, img) ∷ rs) table = entry_at table (size_sub hash start) >>= λ entry.
    refill start rs (set_entry table (size_sub hash start) (entry ++ (img ∷ [])))

entry_at-middle :
    (done later : List (List Bytes)) (entry : List Bytes)
    → entry_at (done ++ (entry ∷ later)) (length done) ≡ ok entry
unfolding entry_at
entry_at-middle [] later entry = refl
entry_at-middle (e ∷ done) later entry = entry_at-middle done later entry

set_entry-middle :
    (done later : List (List Bytes)) (old entry : List Bytes)
    → set_entry (done ++ (old ∷ later)) (length done) entry ≡ done ++ (entry ∷ later)
unfolding set_entry
set_entry-middle [] later old entry = refl
set_entry-middle (e ∷ done) later old entry = ap (◌∷◌ e) (set_entry-middle done later old entry)

refill-entry :
    (start : ℕ) (xs : List Bytes) (more : List Record) (done later : List (List Bytes))
    (entry : List Bytes)
    → start + length done < size_mod
    → refill start (entry_records (start + length done) xs ++ more) (done ++ (entry ∷ later))
      ≡ refill start more (done ++ ((entry ++ xs) ∷ later))
refill-entry start [] more done later entry small =
    ap (λ e. refill start more (done ++ (e ∷ later))) (sym (append-nil entry))
refill-entry start (img ∷ xs) more done later entry small =
    let place : size_sub (start + length done) start ≡ length done = omega (arith, small) in
    rw
      (
        place,
        entry_at-middle done later entry,
        set_entry-middle done later entry (entry ++ (img ∷ [])),
      )
      (refill-entry start xs more done later (entry ++ (img ∷ [])) small
        ∙ ap (λ e. refill start more (done ++ (e ∷ later))) (append_assoc entry (img ∷ []) xs))

-- The records of a table, on an empty table, give it back.
pub refill-records :
    (start : ℕ) (done table : List (List Bytes))
    → start + length done + length table < size_mod
    → refill start (records (start + length done) table) (done ++ replicate (length table) [])
      ≡ ok (done ++ table)
refill-records start done [] small = refl
refill-records start done (entry ∷ table) small =
    let next : start + length (done ++ (entry ∷ [])) ≡ suc (start + length done) =
      omega (arith, length-append done (entry ∷ [])) in
    let ih : refill start (records (start + length (done ++ (entry ∷ []))) table)
          ((done ++ (entry ∷ [])) ++ replicate (length table) [])
        ≡ ok ((done ++ (entry ∷ [])) ++ table) =
      refill-records start (done ++ (entry ∷ [])) table (omega (arith, next, small)) in
    refill-entry start entry (records (suc (start + length done)) table) done
      (replicate (length table) []) [] (omega (arith, small))
    ∙ ap₂ (λ k t. refill start (records k table) t) (sym next)
        (sym (append_assoc done (entry ∷ []) (replicate (length table) [])))
    ∙ ih
    ∙ ap ok (append_assoc done (entry ∷ []) table)

-- An image of the given size with a hash value that is a `size_t`.
abbrev pub IsSound : ℕ → Record → Type 0
IsSound n (hash, img) = (hash < size_mod) × (length img ≡ n)

load_file-encode :
    (m : Member) (n hash : ℕ) (img buf : Bytes) (thumbnails : List Bytes)
    (table : List (List Bytes))
    → m.full_size ≡ n
    → length buf ≡ n
    → IsSound n (hash, img)
    → load_file (encode (hash, img)) (filled m buf thumbnails table) ≡ (
        entry_at table (size_sub hash m.hash_start) >>= λ entry. ok (
          filled m img
            (thumbnails ++ (img ∷ []))
            (set_entry table (size_sub hash m.hash_start) (entry ++ (img ∷ [])))))
unfolding load_file
load_file-encode m n hash img buf thumbnails table full size (small, sized) =
    let fits : ltb (length buf) m.full_size ≡ false = ground (arith, full, size) in
    let whole : take m.full_size img ≡ img =
      take_all m.full_size img (omega (arith, full, sized)) in
    let copied : copy_into buf 0 img ≡ img = copy_into_all buf img (sized ∙ sym size) in
    rw (size_bytes_join hash small, fits, whole, copied) refl

module _ (path_max : ℕ) (file_name : ℕ → ℕ → Bytes) (dir : Bytes) (count p : ℕ)
    (v : IsNamed path_max file_name dir count p) where
  -- The loop on the files of a process, which come to an end.
  pub bsp_load_db-Kept :
      (m : Member) (n fuel i : ℕ) (rs : List Record) (files : FileSystem) (buf : Bytes)
      (thumbnails : List Bytes) (table table' : List (List Bytes))
      → m.pid < p
      → m.full_size ≡ n
      → length rs < fuel
      → i + length rs ≤ count
      → Kept path_max file_name dir count p v files m.pid i rs
      → All (IsSound n) rs
      → length buf ≡ n
      → refill m.hash_start rs table ≡ ok table'
      → (buf' : Bytes) × (thumbnails' : List Bytes) × (bsp_load_db path_max file_name fuel
            (dir ++ (slash ∷ []))
            files
            i
            (filled m buf thumbnails table)
          ≡ ok (filled m buf' thumbnails' table'))
        × (length buf' ≡ n)
  unfolding bsp_load_db
  bsp_load_db-Kept m n zero i rs files buf thumbnails table table' inside full enough few kept sound
        size end =
      absurd (omega (arith, enough))
  bsp_load_db-Kept m n (suc fuel) i [] files buf thumbnails table table' inside full enough few kept
        sound size end =
      let name =
        file_path-full_name path_max file_name dir count p v i m.pid (omega (arith, few)) inside in
      (
        buf,
        thumbnails,
        rw (name, kept) (ap (λ r. r >>= λ t. ok (filled m buf thumbnails t)) end),
        size,
      )
  bsp_load_db-Kept m n (suc fuel) i ((hash, img) ∷ rs) files buf thumbnails table table' inside full
        enough few (now, kept) (sound, sounds) size end =
      let place = size_sub hash m.hash_start in
      let (entry, got, rest) =
        >>=-eq-ok (entry_at table place)
          (λ e. refill m.hash_start rs (set_entry table place (e ++ (img ∷ [])))) end in
      let name =
        file_path-full_name path_max file_name dir count p v i m.pid (omega (arith, few)) inside in
      let wraps : size_add i 1 ≡ suc i = omega (arith, few, v.few) in
      let loaded : load_file (encode (hash, img)) (filled m buf thumbnails table)
          ≡ ok (
              filled m img (thumbnails ++ (img ∷ []))
                (set_entry table place (entry ++ (img ∷ [])))) =
        load_file-encode m n hash img buf thumbnails table full size sound ∙ rw got refl in
      let (buf', thumbnails', ran, size') =
        bsp_load_db-Kept m n fuel (suc i) rs files img (thumbnails ++ (img ∷ []))
          (set_entry table place (entry ++ (img ∷ []))) table' inside full (omega (arith, enough))
          (omega (arith, few)) kept sounds sound.1 rest in
      (
        buf',
        thumbnails',
        rw (name, now, loaded)
            (ap
                (λ k. bsp_load_db path_max file_name fuel (dir ++ (slash ∷ [])) files k (
                  filled m img (thumbnails ++ (img ∷ []))
                    (set_entry table place (entry ++ (img ∷ [])))))
                wraps
              ∙ ran),
        size',
      )
