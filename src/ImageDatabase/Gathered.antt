-- ===== src/ImageDatabase/Gathered.antt =====
-- What the processes hold once the parts of the image have gone to one of them.
use activebsp.Base.{
  ℕ, suc, ◌≡◌, refl, sym, ap, ap₂, ◌∙◌, arith, ◌==◌, List, [], ◌∷◌, map, length, length-map, take,
  take_all, ltb, false, Bool-cases, inl, inr, if◌then◌else◌, ok,
}
use activebsp.Pieces.{Chunk}
use activebsp.Store.DataStore.{Bytes}
use activebsp.Distribution.BlockRange.{block_begin}
use activebsp.Distribution.BlockRange.Bounds.{block_begin_ends}
use activebsp.ImageDatabase.{Member, each_process, puts_to, put_part, gather_parts}
use activebsp.ImageDatabase.Slots.{IsRoomy}
use activebsp.ImageDatabase.Delivery.{Delivers, deliver-whole, deliver-length}
use activebsp.ImageDatabase.Represents.{Ranked, map-Ranked, size_at, part_at}
use activebsp.ImageDatabase.Gathering.{
  pieces, sends, puts_to-sends, length-part_at, pieces-IsPieceOf, pieces-Covers,
}
use activebsp.ImageDatabase.Stages.{updated, home, Knows, HasImage, dst_proc-home}

module _ (hash_part : Bytes → ℕ) (hash_procs : Bytes → ℕ) (n p : ℕ) (imgs : List Bytes) where
  module _ (img : Bytes) (sized : length img ≡ n) (roomy : IsRoomy p) where
    abbrev place : ℕ
    place = home hash_part hash_procs n p imgs img sized roomy

    abbrev Shared : ℕ → Member → Type 0
    Shared = Knows hash_part hash_procs n p imgs img sized roomy

    abbrev Got : ℕ → Member → Type 0
    Got = HasImage hash_part hash_procs n p imgs img sized roomy

    put_part_lem :
        (s : ℕ) (m : Member)
        → Shared s m
        → put_part hash_part hash_procs m
          ≡ ok (place, record { offset = block_begin n p s; bytes = part_at n p s img })
    unfolding put_part
    put_part_lem s m ((r, e), known) =
        let fits : ltb (length m.part) m.part_size ≡ false = ground (arith, r.part, r.part_size) in
        let size = length-part_at hash_part hash_procs n p img sized s r.inside in
        let whole : take m.part_size m.part ≡ part_at n p s img =
          ap₂ take r.part_size e
          ∙ take_all (size_at n p s) (part_at n p s img) (omega (arith, size)) in
        let chunk : ℕ → Bytes → Chunk = λ a b. record { offset = a; bytes = b } in
        rw fits (
          ap₂ (λ d c. ok (d, c))
            (dst_proc-home hash_part hash_procs n p imgs img sized roomy s m r known).1
            (ap₂ chunk r.part_offset whole))

    put_parts :
        (s : ℕ) (ms : List Member)
        → Ranked Shared s ms
        → each_process (put_part hash_part hash_procs) ms
          ≡ ok (sends hash_part hash_procs n p img place s (length ms))
    unfolding each_process
    put_parts s [] h = refl
    put_parts s (m ∷ ms) (k, ks) = rw (put_part_lem s m k) (rw (put_parts (suc s) ms ks) refl)

    module _ (deliver : List Chunk → Bytes → Bytes) (v : Delivers deliver) where
      -- The part of the puts that goes to process `s`, on a buffer of the image's size.
      gathered :
          (s : ℕ) (buf : Bytes)
          → length buf ≡ n
          → let puts = puts_to s (sends hash_part hash_procs n p img place 0 p) in
            (length (deliver puts buf) ≡ n) × (place ≡ s → deliver puts buf ≡ img)
      gathered s buf e =
          let to = puts_to-sends hash_part hash_procs n p img s place 0 p in
          let all_parts = pieces hash_part hash_procs n p img 0 p in
          let (starts, ends) = block_begin_ends n p roomy.some_process in
          elim (Bool-cases (place == s)) [
            | inl here ↦
                let all : (if place == s then all_parts else []) ≡ all_parts = rw here in
                let same =
                  ap (λ cs. deliver cs buf) (to ∙ all)
                  ∙ deliver-whole deliver v img buf all_parts (e ∙ sym sized)
                      (pieces-IsPieceOf hash_part hash_procs n p img sized 0 p (omega arith))
                      (λ i lt.
                        pieces-Covers hash_part hash_procs n p img sized 0 p p i (omega arith)
                          (omega arith) (omega (arith, starts)) (omega (arith, ends, lt, sized))) in
                (ap length same ∙ sized, λ at_place. same)
            | inr away ↦
                let nothing : (if place == s then all_parts else []) ≡ [] = rw away in
                (
                  ap (λ cs. length (deliver cs buf)) (to ∙ nothing)
                      ∙ deliver-length deliver v img buf [] (e ∙ sym sized) tt
                      ∙ sized,
                  λ at_place. absurd (ground (arith, away, at_place)),
                )
          ]

      pub gather_parts-HasImage :
          (ms : List Member)
          → length ms ≡ p
          → Ranked Shared 0 ms
          → (ms' : List Member) × (gather_parts hash_part hash_procs deliver ms ≡ ok ms')
            × (length ms' ≡ length ms)
            × Ranked Got 0 ms'
      unfolding gather_parts
      gather_parts-HasImage ms count h =
          let puts = sends hash_part hash_procs n p img place 0 p in
          let put =
            put_parts 0 ms h ∙ ap (λ k. ok (sends hash_part hash_procs n p img place 0 k)) count in
          let gather : Member → Member =
            λ m. record m { thumbnail_buf = deliver (puts_to m.pid puts) m.thumbnail_buf } in
          (
            map gather ms,
            rw put refl,
            length-map gather ms,
            map-Ranked Shared Got gather 0 ms
                (λ s m k.
                  let ((r, e), known) = k in
                  let (size, whole) = gathered s m.thumbnail_buf r.thumbnail_buf in
                  let at_s = ap (λ q. deliver (puts_to q puts) m.thumbnail_buf) r.pid in
                  (
                    updated hash_part hash_procs n p imgs imgs s m m.part m.procs_buf _ m.thumbnails
                        m.hash_table r r.part r.procs_buf (ap length at_s ∙ size) r.hash_table,
                    known,
                    λ here. at_s ∙ whole here,
                  ))
                h,
          )
