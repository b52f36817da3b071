-- ===== src/ImageDatabase/Places.antt =====
-- The process and the entry of its table where an image has its place.
use activebsp.Base.{
  ℕ, ◌+◌, ◌-◌, ◌*◌, ◌<◌, ◌≤◌, ◌≡◌, sym, ap, ap₂, ◌∙◌, arith, ◌==◌, List, [], ◌∷◌, ◌++◌, All, length,
  size_sub, true, false, Bool-cases, inl, inr, if◌then◌else◌, ==_refl, subst, ok,
}
use native.Mathlib.Nat.{mod-lt}
use activebsp.Store.DataStore.{Bytes}
use activebsp.ImageDatabase.{
  Member, hash_size, block_of, nhash_of, entry_at, find_in, set_entry, dst_proc, modulus_hash,
}
use activebsp.ImageDatabase.Slots.{IsRoomy, slot_lem, slot_unique}
use activebsp.ImageDatabase.Buckets.{
  occurs, bucket, table_of, entry_at-table_of, table_of-outside, table_of-known, table_of-new,
  bucket-length, occurs-bucket, find_in-occurs,
}
use activebsp.ImageDatabase.Represents.{words, slot_of}
use activebsp.ImageDatabase.Stages.{home, HasImage, dst_proc-home}

module _ (hash_part : Bytes → ℕ) (hash_procs : Bytes → ℕ) (n p : ℕ) (imgs : List Bytes)
    (img : Bytes) (sized : length img ≡ n) (roomy : IsRoomy p)
    (sizes : All (λ other. length other ≡ n) imgs) where
  abbrev pub slot : ℕ
  slot = slot_of hash_part hash_procs n p img

  abbrev pub at_home : ℕ
  at_home = home hash_part hash_procs n p imgs img sized roomy

  abbrev pub Has : ℕ → Member → Type 0
  Has = HasImage hash_part hash_procs n p imgs img sized roomy

  pub slot-small : slot < hash_size
  slot-small =
      mod-lt (hash_procs (words hash_part hash_procs n p img 0 p)) {m = hash_size} (omega arith)

  abbrev pub stored : List Bytes → ℕ → List Bytes
  stored = bucket (slot_of hash_part hash_procs n p)

  -- The place of the image in the table of its process.
  place_lem :
      (s : ℕ)
      → at_home ≡ s
      → (block_of p * s ≤ slot) × (slot - block_of p * s < nhash_of (block_of p) (block_of p * s))
  place_lem s here =
      let (word, below, start, inside) = slot_lem p roomy slot slot-small in
      (
        omega (arith, start, ap (λ (k : ℕ). block_of p * k) here),
        subst (λ k. slot - block_of p * k < nhash_of (block_of p) (block_of p * k)) here inside,
      )

  pub index_lem :
      (s : ℕ) (m : Member)
      → Has s m
      → at_home ≡ s
      → size_sub (modulus_hash hash_part hash_procs m) m.hash_start ≡ slot - block_of p * s
  index_lem s m (r, known, whole) here =
      let (same_slot, dst) =
        dst_proc-home hash_part hash_procs n p imgs img sized roomy s m r known in
      let (start, inside) = place_lem s here in
      let small = slot-small in ap₂ size_sub same_slot r.hash_start ∙ omega (arith, start, small)

  -- The entry of the image on its process, and what the search in it finds.
  pub entry_lem :
      (s : ℕ) (m : Member)
      → Has s m
      → at_home ≡ s
      → ((m.pid == dst_proc hash_part hash_procs m) ≡ true)
        × (entry_at m.hash_table (size_sub (modulus_hash hash_part hash_procs m) m.hash_start)
            ≡ ok (stored imgs slot))
        × (find_in m.thumbnail_buf (stored imgs slot) ≡ ok (occurs img imgs))
  entry_lem s m has here =
      let (r, known, whole) = has in
      let (same_slot, dst) =
        dst_proc-home hash_part hash_procs n p imgs img sized roomy s m r known in
      let (start, inside) = place_lem s here in
      let back : block_of p * s + (slot - block_of p * s) ≡ slot = omega (arith, start) in
      let sizes_img = subst (λ k. All (λ other. length other ≡ k) imgs) (sym sized) sizes in
      (
        ap₂ ◌==◌ r.pid (dst ∙ here) ∙ ==_refl s,
        ap₂ entry_at r.hash_table (index_lem s m has here)
            ∙ entry_at-table_of (slot_of hash_part hash_procs n p) imgs (block_of p * s)
                (nhash_of (block_of p) (block_of p * s)) (slot - block_of p * s) inside
            ∙ ap (λ k. ok (stored imgs k)) back,
        ap (λ b. find_in b (stored imgs slot)) (whole here)
            ∙ find_in-occurs img (stored imgs slot)
                (bucket-length (slot_of hash_part hash_procs n p) (length img) imgs slot sizes_img)
            ∙ ap ok (occurs-bucket (slot_of hash_part hash_procs n p) img imgs),
      )

  pub away_lem :
      (s : ℕ) (m : Member)
      → Has s m
      → (at_home == s) ≡ false
      → (m.pid == dst_proc hash_part hash_procs m) ≡ false
  away_lem s m (r, known, whole) away =
      let (same_slot, dst) =
        dst_proc-home hash_part hash_procs n p imgs img sized roomy s m r known in
      ground (arith, r.pid, dst, away)

  -- The part of the table of a process with one more image.
  pub table_away :
      (s : ℕ)
      → s < p
      → (at_home == s) ≡ false
      → table_of
          (slot_of hash_part hash_procs n p)
          (img ∷ imgs)
          (block_of p * s)
          (nhash_of (block_of p) (block_of p * s))
        ≡ table_of
            (slot_of hash_part hash_procs n p)
            imgs
            (block_of p * s)
            (nhash_of (block_of p) (block_of p * s))
  table_away s h away =
      table_of-outside (slot_of hash_part hash_procs n p) img imgs (block_of p * s)
        (nhash_of (block_of p) (block_of p * s))
        (λ lo hi. absurd (ground (arith, away, slot_unique p roomy slot s slot-small h lo hi)))

  pub table_here :
      (s : ℕ)
      → at_home ≡ s
      → table_of
          (slot_of hash_part hash_procs n p)
          (img ∷ imgs)
          (block_of p * s)
          (nhash_of (block_of p) (block_of p * s))
        ≡ (if occurs img imgs
            then table_of
                (slot_of hash_part hash_procs n p)
                imgs
                (block_of p * s)
                (nhash_of (block_of p) (block_of p * s))
            else set_entry
                (table_of
                  (slot_of hash_part hash_procs n p)
                  imgs
                  (block_of p * s)
                  (nhash_of (block_of p) (block_of p * s)))
                (slot - block_of p * s)
                (stored imgs slot ++ (img ∷ [])))
  table_here s here =
      let (start, inside) = place_lem s here in
      let found = occurs-bucket (slot_of hash_part hash_procs n p) img imgs in
      elim (Bool-cases (occurs img imgs)) [
        | inl e ↦ rw e (
            table_of-known (slot_of hash_part hash_procs n p) img imgs (block_of p * s)
              (nhash_of (block_of p) (block_of p * s)) (found ∙ e))
        | inr e ↦ rw e (
            table_of-new (slot_of hash_part hash_procs n p) img imgs (block_of p * s)
              (nhash_of (block_of p) (block_of p * s)) (slot - block_of p * s) (found ∙ e)
              (omega (arith, start)) inside)
      ]
