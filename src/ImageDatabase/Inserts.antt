-- ===== src/ImageDatabase/Inserts.antt =====
-- What an insertion and a query do to a database that holds some images.
use activebsp.Base.{
  ℕ, zero, suc, ◌+◌, ◌<◌, ◌≤◌, ◌≡◌, refl, sym, ap, ap₂, ◌∙◌, arith, ◌==◌, List, [], ◌∷◌, ◌++◌, All,
  Any, length, length-map, slice, replicate, length-replicate, size_sub, Bool, Bool-cases, inl, inr,
  if◌then◌else◌, ok,
}
use activebsp.Pieces.{Chunk}
use activebsp.Store.DataStore.{Bytes}
use activebsp.ImageDatabase.{
  Member, each_process, set_entry, modulus_hash, store_thumbnail, put_match, bsp_insert, bsp_exist,
  share_hashes, gather_parts, read_part,
}
use activebsp.ImageDatabase.Slots.{IsRoomy, slot_lem}
use activebsp.ImageDatabase.Delivery.{Delivers}
use activebsp.ImageDatabase.Buckets.{occurs}
use activebsp.ImageDatabase.Represents.{Ranked, each_process-Ranked, Represents}
use activebsp.ImageDatabase.Stages.{updated, HasPart, read_part-HasPart, share_hashes-Knows}
use activebsp.ImageDatabase.Gathered.{gather_parts-HasImage}
use activebsp.ImageDatabase.Places.{
  slot, at_home, Has, stored, index_lem, entry_lem, away_lem, table_away, table_here, slot-small,
}

module _ (hash_part : Bytes → ℕ) (hash_procs : Bytes → ℕ) (n p : ℕ) (imgs : List Bytes)
    (img : Bytes) (sized : length img ≡ n) (roomy : IsRoomy p)
    (sizes : All (λ other. length other ≡ n) imgs) where
  abbrev home_of : ℕ
  home_of = at_home hash_part hash_procs n p imgs img sized roomy sizes

  store_thumbnail-Represents :
      (s : ℕ) (m : Member)
      → Has hash_part hash_procs n p imgs img sized roomy sizes s m
      → (m' : Member) × (store_thumbnail hash_part hash_procs m ≡ ok m')
        × Represents hash_part hash_procs n p (img ∷ imgs) s m'
  unfolding store_thumbnail
  store_thumbnail-Represents s m has =
      let (r, known, whole) = has in
      elim (Bool-cases (home_of == s)) [
        | inr away ↦ (
          m,
          rw (away_lem hash_part hash_procs n p imgs img sized roomy sizes s m has away) refl,
          updated hash_part hash_procs n p imgs (img ∷ imgs) s m m.part m.procs_buf m.thumbnail_buf
              m.thumbnails m.hash_table r r.part r.procs_buf r.thumbnail_buf
              (r.hash_table
                ∙ sym (
                    table_away hash_part hash_procs n p imgs img sized roomy sizes s r.inside
                      away)),
        )
        | inl e ↦
            let here : home_of ≡ s = ground (arith, e) in
            let (mine, entry, found) =
              entry_lem hash_part hash_procs n p imgs img sized roomy sizes s m has here in
            let old =
              stored hash_part hash_procs n p imgs img sized roomy sizes imgs
                (slot hash_part hash_procs n p imgs img sized roomy sizes) in
            let i = size_sub (modulus_hash hash_part hash_procs m) m.hash_start in
            let put : List (List Bytes) → ℕ → Bytes → List (List Bytes) = λ table j buf.
              if occurs img imgs then table else set_entry table j (old ++ (buf ∷ [])) in
            let table =
              ap₂ (λ t j. put t j m.thumbnail_buf) r.hash_table
                (index_lem hash_part hash_procs n p imgs img sized roomy sizes s m has here)
              ∙ ap (put _ _) (whole here)
              ∙ sym (table_here hash_part hash_procs n p imgs img sized roomy sizes s here) in
            (
              record m {
                thumbnails = m.thumbnails ++ (m.thumbnail_buf ∷ []);
                hash_table = put m.hash_table i m.thumbnail_buf;
              },
              rw (mine, entry, found) refl,
              updated hash_part hash_procs n p imgs (img ∷ imgs) s m m.part m.procs_buf
                  m.thumbnail_buf _ _ r r.part r.procs_buf r.thumbnail_buf table,
            )
      ]

  -- What a process says of an image.
  abbrev Says : Bool → List Bool → Type 0
  Says b found = All (λ x. x ≡ b) found

  all_replicate : (k : ℕ) (b : Bool) → Says b (replicate k b)
  all_replicate zero b = tt
  all_replicate (suc k) b = (refl, all_replicate k b)

  put_matches :
      (s : ℕ) (ms : List Member)
      → Ranked (Has hash_part hash_procs n p imgs img sized roomy sizes) s ms
      → (found : List (List Bool)) × (each_process (put_match hash_part hash_procs) ms ≡ ok found)
        × (All (Says (occurs img imgs)) found)
        × (s ≤ home_of → home_of < s + length ms → Any (λ x. 0 < length x) found)
  unfolding each_process put_match
  put_matches s [] h = ([], refl, tt, λ lo hi. absurd (omega arith))
  put_matches s (m ∷ ms) (has, hs) =
      let (found, later, says, some) = put_matches (suc s) ms hs in
      let (r, known, whole) = has in
      elim (Bool-cases (home_of == s)) [
        | inr away ↦ (
          [] ∷ found,
          rw (away_lem hash_part hash_procs n p imgs img sized roomy sizes s m has away, later)
              refl,
          (tt, says),
          λ lo hi. inr (some (ground (arith, away, lo)) (omega (arith, hi))),
        )
        | inl e ↦
            let here : home_of ≡ s = ground (arith, e) in
            let (mine, entry, search) =
              entry_lem hash_part hash_procs n p imgs img sized roomy sizes s m has here in
            (
              replicate m.nprocs (occurs img imgs) ∷ found,
              rw (mine, entry, search, later) refl,
              (all_replicate m.nprocs (occurs img imgs), says),
              λ lo hi. inl (
                  omega (
                    arith,
                    length-replicate {A = Bool} m.nprocs (occurs img imgs),
                    r.nprocs,
                    roomy.some_process,
                  )),
            )
      ]

  module _ (deliver : List Chunk → Bytes → Bytes) (v : Delivers deliver) (get_part : ℕ → ℕ → Bytes)
      (gets : (offset size : ℕ)
        → offset + size ≤ n
        → get_part offset size ≡ slice offset size img) where
    -- Both functions begin in the same way.
    begins :
        (ms : List Member)
        → length ms ≡ p
        → Ranked (Represents hash_part hash_procs n p imgs) 0 ms
        → (ms1 ms2 : List Member) × (each_process (read_part get_part) ms ≡ ok ms1)
          × (gather_parts hash_part hash_procs deliver
                (share_hashes hash_part hash_procs deliver ms1)
              ≡ ok ms2)
          × (length ms2 ≡ p)
          × Ranked (Has hash_part hash_procs n p imgs img sized roomy sizes) 0 ms2
    unfolding share_hashes
    begins ms count h =
        let (ms1, read, count1, parts) =
          each_process-Ranked (Represents hash_part hash_procs n p imgs)
            (HasPart hash_part hash_procs n p imgs img sized roomy) (read_part get_part) 0 ms
            (λ s m r.
              read_part-HasPart hash_part hash_procs n p imgs img sized roomy get_part s m gets r)
            h in
        let know =
          share_hashes-Knows hash_part hash_procs n p imgs img sized roomy deliver v ms1
            (count1 ∙ count) parts in
        let count2 = length-map _ ms1 ∙ count1 ∙ count in
        let (ms2, gathers, count3, images) =
          gather_parts-HasImage hash_part hash_procs n p imgs img sized roomy deliver v
            (share_hashes hash_part hash_procs deliver ms1) count2 know in
        (ms1, ms2, read, gathers, count3 ∙ count2, images)

    pub bsp_insert-Represents :
        (ms : List Member)
        → length ms ≡ p
        → Ranked (Represents hash_part hash_procs n p imgs) 0 ms
        → (ms' : List Member) × (bsp_insert hash_part hash_procs deliver get_part ms ≡ ok ms')
          × (length ms' ≡ p)
          × Ranked (Represents hash_part hash_procs n p (img ∷ imgs)) 0 ms'
    unfolding bsp_insert
    bsp_insert-Represents ms count h =
        let (ms1, ms2, read, gathers, count2, images) = begins ms count h in
        let (ms3, stores, count3, end) =
          each_process-Ranked (Has hash_part hash_procs n p imgs img sized roomy sizes)
            (Represents hash_part hash_procs n p (img ∷ imgs))
            (store_thumbnail hash_part hash_procs) 0 ms2 store_thumbnail-Represents images in
        (ms3, rw (read, gathers) stores, count3 ∙ count2, end)

    pub bsp_exist_lem :
        (ms : List Member)
        → length ms ≡ p
        → Ranked (Represents hash_part hash_procs n p imgs) 0 ms
        → (ms' : List Member) × (found : List (List Bool)) × (bsp_exist hash_part hash_procs deliver
              get_part ms
            ≡ ok (ms', found))
          × (All (Says (occurs img imgs)) found)
          × (Any (λ x. 0 < length x) found)
    unfolding bsp_exist
    bsp_exist_lem ms count h =
        let (ms1, ms2, read, gathers, count2, images) = begins ms count h in
        let (found, puts, says, some) = put_matches 0 ms2 images in
        let below =
          (slot_lem p roomy _ (slot-small hash_part hash_procs n p imgs img sized roomy sizes)).1 in
        (
          ms2,
          found,
          rw (read, gathers, puts) refl,
          says,
          some (omega arith) (omega (arith, below, count2)),
        )
