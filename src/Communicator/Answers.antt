-- ===== src/Communicator/Answers.antt =====
-- The requests of a read of a distributed vector, and the bytes that answer them, as pieces of the
-- range.
use activebsp.Base.{
  ℕ, ◌≡◌, refl, ◌∙◌, ap, sym, inl, inr, ◌≤◌, ◌<◌, ◌+◌, ◌-◌, false, Bool-cases, List, [], ◌∷◌, arith,
  All, Any, length, slice, length-slice, ltb, int_add, to_int, to_size, size_add, size_sub, int_min,
  get_elem?-slice, eq_of_get_elem?, get_elem?, map, ok,
}
use activebsp.Pieces.{Chunk, IsPieceOf, Covers}
use activebsp.Distribution.VectorDistribution.{Part}
use activebsp.Distribution.Ranges.{wanted_offset, wanted_size, misses, wanted_lem, wanted_all}
use activebsp.Store.DataStore.{Bytes}
use activebsp.Communicator.{
  Request, request, requests, read_stored_result, read_local, receive_remote,
}

slice-slice :
    (o k b m : ℕ) (xs : Bytes)
    → o + k ≤ m
    → b + m ≤ length xs
    → slice o k (slice b m xs) ≡ slice (b + o) k xs
slice-slice o k b m xs h fits =
    let inner = length-slice b m xs fits in
    let left = length-slice o k (slice b m xs) (omega (arith, inner)) in
    let right = length-slice (b + o) k xs (omega arith) in
    eq_of_get_elem? (slice o k (slice b m xs)) (slice (b + o) k xs) (omega (arith, left, right))
      (λ i lt.
        let e : b + (o + i) ≡ b + o + i = omega arith in
        get_elem?-slice o k (slice b m xs) i (omega (arith, left))
        ∙ (get_elem?-slice b m xs (o + i) (omega (arith, left))
            ∙ (ap (get_elem? xs) e ∙ sym (get_elem?-slice (b + o) k xs i (omega (arith, left))))))

module _ (stored : ℕ → ℕ → Bytes) (whole : Bytes) where
  -- The owner of the part holds the bytes of the vector at the part's place.
  abbrev pub IsHeld : Part → Type 0
  IsHeld part =
      (part.offset + part.size ≤ length whole)
      × (stored part.pid part.resid ≡ slice part.offset part.size whole)

  -- Byte `i` of the vector stands in the part.
  abbrev pub HasByte : ℕ → Part → Type 0
  HasByte i part = (part.offset ≤ i) × (i < part.offset + part.size)

  module _ (offset n : ℕ) where
    abbrev pub Good : Request → Type 0
    Good r =
        (r.dst + r.size ≤ n)
        × (r.offset + r.size ≤ length (stored r.owner r.resid))
        × (r.offset + r.size < int_min)
        × (slice r.offset r.size (stored r.owner r.resid)
            ≡ slice r.dst r.size (slice offset n whole))

    abbrev pub Brings : ℕ → Request → Type 0
    Brings i r = (r.dst ≤ i) × (i < r.dst + r.size)

    abbrev pub chunk : Request → Chunk
    chunk r = record { offset = r.dst; bytes = slice r.offset r.size (stored r.owner r.resid) }

    request_at-Good :
        (part : Part) (ro rs : ℕ)
        → length whole < int_min
        → offset + n ≤ length whole
        → IsHeld part
        → ro + rs ≤ part.size
        → offset ≤ part.offset + ro
        → part.offset + ro + rs ≤ offset + n
        → Good (record {
          owner = part.pid;
          resid = part.resid;
          offset = ro;
          size = rs;
          dst = part.offset + ro - offset;
        })
    request_at-Good part ro rs small fits (inside, held) a b c =
        let there : offset + (part.offset + ro - offset) ≡ part.offset + ro = omega arith in
        let sized : length (stored part.pid part.resid) ≡ part.size =
          ap length held ∙ length-slice part.offset part.size whole inside in
        (
          omega arith,
          omega arith,
          omega arith,
          ap (slice ro rs) held
              ∙ (slice-slice ro rs part.offset part.size whole a inside
                  ∙ (ap (λ o. slice o rs whole) (sym there)
                      ∙ sym (
                          slice-slice (part.offset + ro - offset) rs offset n whole (omega arith)
                            fits))),
        )

    request_dst :
        (part : Part)
        → length whole < int_min
        → offset + n ≤ length whole
        → part.offset + part.size ≤ length whole
        → misses offset (offset + n) part ≡ false
        → (request offset (offset + n) part).dst ≡ part.offset + wanted_offset offset part - offset
    request_dst part small fits inside m =
        let (a, b, c) = wanted_lem offset n part (omega arith) (omega arith) m in
        at (wanted_offset offset part) (omega (arith, a, inside)) b
      where
        at :
            (ro : ℕ)
            → ro ≤ length whole
            → offset ≤ part.offset + ro
            → size_sub (size_add ro part.offset) offset ≡ part.offset + ro - offset
        at ro a b = ground arith

    request-Good :
        (part : Part)
        → length whole < int_min
        → offset + n ≤ length whole
        → IsHeld part
        → misses offset (offset + n) part ≡ false
        → Good (request offset (offset + n) part)
    request-Good part small fits (inside, held) m =
        let (a, b, c) = wanted_lem offset n part (omega arith) (omega arith) m in
        rw (request_dst part small fits inside m) (
          request_at-Good part (wanted_offset offset part) (wanted_size offset (offset + n) part)
            small fits (inside, held) a b c)

    pub requests-Good :
        (parts : List Part)
        → length whole < int_min
        → offset + n ≤ length whole
        → All IsHeld parts
        → All Good (requests offset (offset + n) parts)
    unfolding requests
    requests-Good [] small fits h = tt
    requests-Good (part ∷ parts) small fits (h, hs) =
        let rest = requests-Good parts small fits hs in
        elim (Bool-cases (misses offset (offset + n) part)) [
          | inl e ↦ rw e rest
          | inr e ↦ rw e (request-Good part small fits h e, rest)
        ]

    pub requests_bring :
        (parts : List Part) (i : ℕ)
        → length whole < int_min
        → offset + n ≤ length whole
        → i < n
        → All IsHeld parts
        → Any (HasByte (offset + i)) parts
        → Any (Brings i) (requests offset (offset + n) parts)
    unfolding requests
    requests_bring [] i small fits lt h k = k
    requests_bring (part ∷ parts) i small fits lt (h, hs) (inl (lo, hi)) =
        let (m, from, to) =
          wanted_all offset n part (offset + i) (omega arith) (omega arith) (omega arith)
            (omega arith) lo hi in
        let (a, b, c) = wanted_lem offset n part (omega arith) (omega arith) m in
        let dst = request_dst part small fits h.0 m in
        rw m (inl (omega (arith, from, dst, b), omega (arith, to, dst, b)))
    requests_bring (part ∷ parts) i small fits lt (h, hs) (inr k) =
        let rest = requests_bring parts i small fits lt hs k in
        elim (Bool-cases (misses offset (offset + n) part)) [
          | inl e ↦ rw e rest
          | inr e ↦ rw e (inr rest)
        ]

    pub receive_remote-Good :
        (rs : List Request) → All Good rs → receive_remote stored rs ≡ ok (map chunk rs)
    unfolding receive_remote
    receive_remote-Good [] h = refl
    receive_remote-Good (r ∷ rs) ((dst, fits, small, same), hs) =
        let rest = receive_remote-Good rs hs in
        let enough : ltb (length (stored r.owner r.resid)) (size_add r.offset r.size) ≡ false =
          ground arith in
        let narrow : to_int r.size ≡ r.size = omega arith in rw (enough, rest, narrow) refl

    pub read_local-Good : (rs : List Request) → All Good rs → read_local stored rs ≡ map chunk rs
    unfolding read_local read_stored_result
    read_local-Good [] h = refl
    read_local-Good (r ∷ rs) ((dst, fits, small, same), hs) =
        let rest = read_local-Good rs hs in
        let o : to_int r.offset ≡ r.offset = omega arith in
        let k : to_int r.size ≡ r.size = omega arith in
        let enough : ltb (length (stored r.owner r.resid)) (to_size (int_add r.offset r.size))
            ≡ false =
          ground arith in
        rw (o, k, enough, rest) refl

    pub chunks-IsPieceOf :
        (rs : List Request)
        → offset + n ≤ length whole
        → All Good rs
        → All (IsPieceOf (slice offset n whole)) (map chunk rs)
    chunks-IsPieceOf [] fits h = tt
    chunks-IsPieceOf (r ∷ rs) fits ((dst, room, small, same), hs) =
        let size = length-slice r.offset r.size (stored r.owner r.resid) room in
        let target = length-slice offset n whole fits in
        ((omega (arith, size, target), rw size same), chunks-IsPieceOf rs fits hs)

    pub chunks_cover :
        (rs : List Request) (i : ℕ) → All Good rs → Any (Brings i) rs → Covers (map chunk rs) i
    chunks_cover [] i h k = k
    chunks_cover (r ∷ rs) i ((dst, room, small, same), hs) (inl (lo, hi)) =
        let size = length-slice r.offset r.size (stored r.owner r.resid) room in
        inl (lo, omega (arith, size, hi))
    chunks_cover (r ∷ rs) i (h, hs) (inr k) = inr (chunks_cover rs i hs k)
