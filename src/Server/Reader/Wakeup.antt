-- ===== src/Server/Reader/Wakeup.antt =====
-- That no wake-up of the reader is lost.
use activebsp.Base.{
  ℕ, ◌≡◌, refl, subst, sym, ap, ◌⊎◌, inl, inr, Bool, true, false, Bool-cases, Option, none, some,
  List, ◌<◌, arith, ok, ◌>>=◌, >>=-eq-ok, ok-injective, ltb, if◌then◌else◌,
}
use activebsp.Pieces.{Chunk}
use activebsp.Store.DataStore.{Bytes, DataStore, DvPart, find_data_buf, get_part_data}
use activebsp.Store.DataStore.Invariant.{IsValid, get_part_data-whole, get_part_data_lem}
use activebsp.Server.State.{Server}
use activebsp.Server.Fetch.{DvCodec}
use activebsp.Server.Route.{handle}
use activebsp.Server.Safety.{IsSafe}
use activebsp.Server.Safety.Messages.{route_message-IsSafe}
use activebsp.Server.Reader.{
  Phase, entering, waiting, finished, Asked, read_found, read_round, broadcasts, wake, Step,
  Reaches, handles, reads, here, next,
}
use activebsp.Server.Reader.Missing.{IsMissing, route_message-IsMissing}

-- A reader that waits misses its part.
abbrev IsQuiet : DataStore → ℕ → Phase → Type 0
IsQuiet d key waiting = IsMissing d key
IsQuiet d key _ = Unit

woken-IsQuiet : (d : DataStore) (key : ℕ) (phase : Phase) → IsQuiet d key (wake true phase)
woken-IsQuiet d key entering = tt
woken-IsQuiet d key waiting = tt
woken-IsQuiet d key (finished code chunks) = tt

kept-IsQuiet :
    (d d' : DataStore) (key : ℕ) (phase : Phase)
    → (IsMissing d key → IsMissing d' key)
    → IsQuiet d key phase
    → IsQuiet d' key (wake false phase)
kept-IsQuiet d d' key entering keeps q = tt
kept-IsQuiet d d' key waiting keeps q = keeps q
kept-IsQuiet d d' key (finished code chunks) keeps q = tt

none-IsMissing :
    (d : DataStore) (key : ℕ) → IsValid d → get_part_data d key ≡ ok none → IsMissing d key
none-IsMissing d key v h = elim (get_part_data_lem d key v) [
  | inl (e, inl absent) ↦ rw absent tt
  | inl (e, inr (p, there, inl more)) ↦ rw there (inl more)
  | inl (e, inr (p, there, inr (whole, place, empty))) ↦ rw there (inr empty)
  | inr (p, buf, there, whole, e, size, why) ↦ absurd cc
]

read_found-IsQuiet :
    (a : Asked) (d : DataStore) (res : Bytes) (size : ℕ) → IsQuiet d a.key (read_found a res size)
unfolding read_found
read_found-IsQuiet a d res size = back (ltb size _) _ _ _ _
  where
    back :
        (b : Bool) (code code' : ℕ) (chunks chunks' : List Chunk)
        → IsQuiet d a.key (if b then finished code chunks else finished code' chunks')
    back true code code' chunks chunks' = tt
    back false code code' chunks chunks' = tt

read_round-IsQuiet :
    (a : Asked) (d : DataStore) {phase : Phase}
    → IsValid d
    → read_round a d ≡ ok phase
    → IsQuiet d a.key phase
unfolding read_round
read_round-IsQuiet a d {phase = next_phase} v h =
    let (found, got, rest) = >>=-eq-ok (get_part_data d a.key) _ h in by_found found got rest
  where
    by_found :
        (found : Option (Bytes × ℕ))
        → get_part_data d a.key ≡ ok found
        → elim found [ none ↦ ok waiting | some (res, size) ↦ ok (read_found a res size) ]
          ≡ ok next_phase
        → IsQuiet d a.key next_phase
    by_found none got rest =
        subst (IsQuiet d a.key) (ok-injective rest) (none-IsMissing d a.key v got)
    by_found (some (res, size)) got rest =
        subst (IsQuiet d a.key) (ok-injective rest) (read_found-IsQuiet a d res size)

record Invariant (a : Asked) (s : Server) (phase : Phase) : Type 0 where
  safe : IsSafe s
  quiet : IsQuiet s.parts a.key phase

module _ (codec : DvCodec) (a : Asked) where
  Step-Invariant :
      {s t : Server} {phase phase' : Phase}
      → Step codec a s phase t phase'
      → Invariant a s phase
      → Invariant a t phase'
  unfolding handle
  Step-Invariant {s = s} {t = t} {phase = phase} (handles m p this after h) v = record {
    safe = route_message-IsSafe codec m.gathered m.heard s m.src m.message v.safe p h;
    quiet = elim (Bool-cases (broadcasts m.message)) [
      | inl e ↦
          subst (λ b. IsQuiet t.parts a.key (wake b phase)) (sym e)
            (woken-IsQuiet t.parts a.key phase)
      | inr e ↦
          subst (λ b. IsQuiet t.parts a.key (wake b phase)) (sym e)
            (kept-IsQuiet s.parts t.parts a.key phase
              (route_message-IsMissing codec m.gathered m.heard a.key s m.src m.message v.safe p
                this after e h)
              v.quiet)
    ];
  }
  Step-Invariant (reads e free h) v = record {
    safe = v.safe;
    quiet = read_round-IsQuiet a _ v.safe.store h;
  }

  Reaches-Invariant :
      {s t : Server} {phase : Phase} → Reaches codec a s t phase → IsSafe s → Invariant a t phase
  Reaches-Invariant here v = record { safe = v; quiet = tt }
  Reaches-Invariant (next before step) v = Step-Invariant step (Reaches-Invariant before v)

  at_phase :
      (t : Server) (phase : Phase) {p : DvPart} {end : Phase}
      → IsQuiet t.parts a.key phase
      → t.parts.dv_parts a.key ≡ some p
      → p.remaining_bytes ≡ 0
      → 0 < p.size
      → t.locked ≡ false
      → read_round a t.parts ≡ ok end
      → ((code : ℕ) × (chunks : List Chunk) × (phase ≡ finished code chunks))
        ⊎ ((phase ≡ entering) × (t.locked ≡ false) × (read_round a t.parts ≡ ok end))
  at_phase t entering q there whole more free ends = inr (refl, free, ends)
  at_phase t waiting q there whole more free ends = absurd (ground (arith, q, there, whole, more))
  at_phase t (finished code chunks) q there whole more free ends = inl (code, chunks, refl)

  -- The reader enters a process whose store is valid and whose mutex is free. There follows any history
  -- of rounds of the reader and of messages. Each message asks for ranges that lie in their parts, of
  -- fewer than 2 ^ 31 bytes, as far as these are available, or brings a chunk that ends below 2 ^ 64,
  -- or is of another kind, and is handled when the reader's key is not one of the next two keys of the
  -- process. If its part is there and whole and is not empty, the reader has finished, or it is about
  -- to take the mutex, which is free, and its next round finishes it on the bytes of the part. It is
  -- not left waiting.
  pub reader_returns :
      {s t : Server} {phase : Phase} {p : DvPart}
      → Reaches codec a s t phase
      → IsSafe s
      → t.parts.dv_parts a.key ≡ some p
      → p.remaining_bytes ≡ 0
      → 0 < p.size
      → (buf : Bytes) × (find_data_buf t.parts a.key ≡ ok buf)
        × (((code : ℕ) × (chunks : List Chunk) × (phase ≡ finished code chunks))
            ⊎ ((phase ≡ entering)
                × (t.locked ≡ false)
                × (read_round a t.parts ≡ ok (read_found a buf p.size))))
  unfolding read_round get_part_data
  reader_returns {t = t} {phase = phase} {p = p} history v there whole more =
      let i = Reaches-Invariant history v in
      let (buf, found, got) = get_part_data-whole t.parts a.key p i.safe.store there whole more in
      (
        buf,
        found,
        at_phase t phase i.quiet there whole more i.safe.free (
            ap
              (λ r. r >>= λ found. elim found [
                | none ↦ ok waiting
                | some (res, n) ↦ ok (read_found a res n)
              ])
              got),
      )
