-- ===== src/ImageDatabase/Files/Reload.antt =====
-- A database that is saved and loaded by another one of the same size.
use activebsp.Base.{
  ℕ, zero, suc, ◌+◌, ◌*◌, ◌<◌, ◌≤◌, ◌≡◌, refl, sym, ap, ap₂, subst, ◌∙◌, arith, List, [], ◌∷◌, ◌++◌,
  map, length, slice, replicate, All, All-append, Any, none, int_min, size_mod, Bool, ok,
}
use activebsp.Pieces.{Chunk}
use activebsp.Store.DataStore.{Bytes}
use activebsp.ImageDatabase.{Member, block_of, nhash_of, database, bsp_exist}
use activebsp.ImageDatabase.Slots.{IsRoomy}
use activebsp.ImageDatabase.Delivery.{Delivers}
use activebsp.ImageDatabase.Buckets.{occurs, bucket, table_of, bucket-length}
use activebsp.ImageDatabase.Represents.{
  Ranked, each_process-Ranked, slot_of, Represents, table_of-empty,
}
use activebsp.ImageDatabase.Stages.{updated}
use activebsp.ImageDatabase.Inserts.{bsp_exist_lem}
use activebsp.ImageDatabase.History.{inserted, database-Represents, inserted-Represents}
use activebsp.ImageDatabase.Files.{slash, FileSystem, save_db, load_db, bsp_load_db}
use activebsp.ImageDatabase.Files.Names.{IsNamed, full_name, path_of-save_dir, load_dir-save_dir}
use activebsp.ImageDatabase.Files.Records.{Record, Kept, entry_records, records}
use activebsp.ImageDatabase.Files.Saving.{
  length-table_of, table_at, records_of, KeptAt, few_records, table_ends, bsp_save_db-Kept,
}
use activebsp.ImageDatabase.Files.Loading.{
  IsSound, filled, refill, refill-records, bsp_load_db-Kept,
}

entry_records-IsSound :
    (n hash : ℕ) (entry : List Bytes)
    → hash < size_mod
    → All (λ img. length img ≡ n) entry
    → All (IsSound n) (entry_records hash entry)
entry_records-IsSound n hash [] small h = tt
entry_records-IsSound n hash (img ∷ entry) small (h, hs) =
    ((small, h), entry_records-IsSound n hash entry small hs)

records-IsSound :
    (slot : Bytes → ℕ) (n : ℕ) (imgs : List Bytes) (start count hash : ℕ)
    → All (λ img. length img ≡ n) imgs
    → hash + count < size_mod
    → All (IsSound n) (records hash (table_of slot imgs start count))
records-IsSound slot n imgs start zero hash sizes small = tt
records-IsSound slot n imgs start (suc count) hash sizes small =
    All-append _ (entry_records hash (bucket slot imgs start)) _
      (entry_records-IsSound n hash (bucket slot imgs start) (omega (arith, small))
        (bucket-length slot n imgs start sizes))
      (records-IsSound slot n imgs (suc start) count (suc hash) sizes (omega (arith, small)))

module _ (hash_part : Bytes → ℕ) (hash_procs : Bytes → ℕ) (n p : ℕ) (roomy : IsRoomy p)
    (imgs : List Bytes) (path_max : ℕ) (file_name : ℕ → ℕ → Bytes) (dir : Bytes)
    (v : IsNamed path_max file_name dir (length imgs) p) where
  abbrev table_here : ℕ → List (List Bytes)
  table_here = table_at hash_part hash_procs n p roomy imgs path_max file_name dir v

  abbrev records_here : ℕ → List Record
  records_here = records_of hash_part hash_procs n p roomy imgs path_max file_name dir v

  refill-empty :
      (s : ℕ) (m : Member)
      → Represents hash_part hash_procs n p [] s m
      → refill m.hash_start (records_here s) m.hash_table ≡ ok (table_here s)
  refill-empty s m r =
      let start = block_of p * s in
      let slot = slot_of hash_part hash_procs n p in
      let size = length-table_of slot imgs start (nhash_of (block_of p) start) in
      let small =
        table_ends hash_part hash_procs n p roomy imgs path_max file_name dir v s r.inside in
      let same_start : start ≡ start + 0 = omega arith in
      let empty =
        r.hash_table
        ∙ sym (table_of-empty hash_part hash_procs n p start (nhash_of (block_of p) start))
        ∙ ap (λ k. replicate k []) (sym size) in
      ap₂ (λ k t. refill k (records_here s) t) r.hash_start empty
      ∙ ap (λ k. refill start (records k (table_here s)) (replicate (length (table_here s)) []))
          same_start
      ∙ refill-records start [] (table_here s) (omega (arith, small))

  bsp_load_db-Represents :
      (fuel s : ℕ) (m : Member) (files : FileSystem)
      → length imgs < fuel
      → All (λ img. length img ≡ n) imgs
      → KeptAt hash_part hash_procs n p roomy imgs path_max file_name dir v files s
      → Represents hash_part hash_procs n p [] s m
      → (m' : Member) × (bsp_load_db path_max file_name fuel (dir ++ (slash ∷ [])) files 0 m
          ≡ ok m')
        × Represents hash_part hash_procs n p imgs s m'
  bsp_load_db-Represents fuel s m files enough sizes kept r =
      let few = few_records hash_part hash_procs n p roomy imgs path_max file_name dir v s in
      let ends =
        table_ends hash_part hash_procs n p roomy imgs path_max file_name dir v s r.inside in
      let start = block_of p * s in
      let slot = slot_of hash_part hash_procs n p in
      let size = length-table_of slot imgs start (nhash_of (block_of p) start) in
      let mine =
        subst (λ q. Kept path_max file_name dir (length imgs) p v files q 0 (records_here s))
          (sym r.pid) kept in
      let (buf, thumbnails, ran, long) =
        bsp_load_db-Kept path_max file_name dir (length imgs) p v m n fuel 0 (records_here s) files
          m.thumbnail_buf m.thumbnails m.hash_table (table_here s) (omega (arith, r.pid, r.inside))
          r.full_size (omega (arith, few, enough)) (omega (arith, few)) mine
          (records-IsSound slot n imgs start (nhash_of (block_of p) start) start sizes
            (omega (arith, ends, size)))
          r.thumbnail_buf (refill-empty s m r) in
      (
        filled m buf thumbnails (table_here s),
        ran,
        updated hash_part hash_procs n p [] imgs s m m.part m.procs_buf buf thumbnails
            (table_here s) r r.part r.procs_buf long refl,
      )

-- Processes that hold the same images have the same tables.
same_tables :
    (hash_part : Bytes → ℕ) (hash_procs : Bytes → ℕ) (n p s : ℕ) (imgs : List Bytes)
    (ms ms' : List Member)
    → length ms ≡ length ms'
    → Ranked (Represents hash_part hash_procs n p imgs) s ms
    → Ranked (Represents hash_part hash_procs n p imgs) s ms'
    → map (λ (m : Member). m.hash_table) ms ≡ map (λ (m : Member). m.hash_table) ms'
same_tables hash_part hash_procs n p s imgs [] [] e h k = refl
same_tables hash_part hash_procs n p s imgs [] (m' ∷ ms') e h k = absurd (omega (arith, e))
same_tables hash_part hash_procs n p s imgs (m ∷ ms) [] e h k = absurd (omega (arith, e))
same_tables hash_part hash_procs n p s imgs (m ∷ ms) (m' ∷ ms') e (h, hs) (k, ks) =
    ap₂ ◌∷◌ (h.hash_table ∙ sym k.hash_table)
      (same_tables hash_part hash_procs n p (suc s) imgs ms ms' (omega (arith, e)) hs ks)

-- Images of the size that `setImgParams` set are inserted into a new database, which is then saved
-- to a directory where it has no files yet. Another new database on as many processes, for images of
-- the same size, loads that directory. Both end, the loop over the files within one step more than there
-- are images inserted, and nothing fails. Every process then has the table that it had when the
-- database was saved, and a query finds exactly the images that were inserted. The conditions on
-- the processes, on the puts and on the size are those of a query without files; `snprintf` prints
-- different numbers differently, paths are shorter than `PATH_MAX`, and the directory is given
-- without a slash at its end and without a zero.
pub exist_after_reload :
    (hash_part : Bytes → ℕ) (hash_procs : Bytes → ℕ) (deliver : List Chunk → Bytes → Bytes)
    (n p : ℕ) (roomy : IsRoomy p) (d : Delivers deliver) (path_max : ℕ) (file_name : ℕ → ℕ → Bytes)
    (dir : Bytes) (width height fuel : ℕ) (imgs : List Bytes) (img : Bytes) (files : FileSystem)
    (v : IsNamed path_max file_name dir (length imgs) p)
    → n ≡ width * height
    → n < int_min
    → All (λ other. length other ≡ n) imgs
    → length img ≡ n
    → length imgs < fuel
    → ((i r : ℕ)
        → i ≤ length imgs
        → r < p
        → files (full_name path_max file_name dir (length imgs) p v i r) ≡ none)
    → (fresh ms loaded ms' : List Member) × (files' : FileSystem) × (found : List (List Bool))
      × (database p width height 0 p ≡ ok fresh)
      × (inserted hash_part hash_procs deliver imgs fresh ≡ ok ms)
      × (save_db path_max file_name dir ms files ≡ ok files')
      × (load_db path_max file_name fuel dir files' fresh ≡ ok loaded)
      × (map (λ (m : Member). m.hash_table) loaded ≡ map (λ (m : Member). m.hash_table) ms)
      × (bsp_exist hash_part hash_procs deliver (λ offset size. slice offset size img) loaded
          ≡ ok (ms', found))
      × (All (λ puts. All (λ x. x ≡ occurs img imgs) puts) found)
      × (Any (λ puts. 0 < length puts) found)
unfolding save_db load_db
exist_after_reload hash_part hash_procs deliver n p roomy d path_max file_name dir width height fuel
      imgs img files v e small sizes sized enough free =
    let (fresh, built, count, rs) =
      database-Represents hash_part hash_procs deliver n p roomy d width height 0 p e small
        (omega arith) in
    let (ms, ran, count1, rs1) =
      inserted-Represents hash_part hash_procs deliver n p roomy d imgs fresh sizes count rs in
    let (files', saved, before, kept) =
      bsp_save_db-Kept hash_part hash_procs n p roomy imgs path_max file_name dir v 0 ms files rs1
        (λ i r few inside since. free i r few inside) in
    let load : (r : ℕ) (m : Member)
        → Represents hash_part hash_procs n p [] r m
        → (m' : Member) × (bsp_load_db path_max file_name fuel (dir ++ (slash ∷ [])) files' 0 m
            ≡ ok m')
          × Represents hash_part hash_procs n p imgs r m' =
      λ r m h.
        bsp_load_db-Represents hash_part hash_procs n p roomy imgs path_max file_name dir v fuel r m
          files' enough sizes (kept r (omega arith) (omega (arith, count1, h.inside))) h in
    let (loaded, loads, count2, rs2) =
      each_process-Ranked _ _ (bsp_load_db path_max file_name fuel (dir ++ (slash ∷ [])) files' 0) 0
        fresh load rs in
    let (ms', found, runs, says, some) =
      bsp_exist_lem hash_part hash_procs n p imgs img sized roomy sizes deliver d
        (λ offset size. slice offset size img) (λ offset size fits. refl) loaded (count2 ∙ count)
        rs2 in
    let in_dir = path_of-save_dir path_max file_name dir (length imgs) p v in
    let from_dir = load_dir-save_dir path_max file_name dir (length imgs) p v in
    (
      fresh,
      ms,
      loaded,
      ms',
      files',
      found,
      built,
      ran,
      rw in_dir saved,
      rw (from_dir, in_dir) loads,
      same_tables hash_part hash_procs n p 0 imgs loaded ms (count2 ∙ count ∙ sym count1) rs2 rs1,
      runs,
      says,
      some,
    )
