-- ===== src/Distribution/Allocator/Runs.antt =====
-- What a sequence of allocations hands out.
use native.Mathlib.Nat.{zero-add}
use native.Mathlib.Decide.{dec_lt}
use activebsp.Base.{
  ℕ, zero, suc, ◌+◌, ◌≤◌, ◌<◌, ◌≡◌, refl, ap, List, [], ◌∷◌, ◌++◌, All, arith, int_lt, int_add,
  int_sub, int_min, true, false, Result, ok, ◌>>=◌, if◌then◌else◌, ltb,
}
use activebsp.Distribution.Allocator.{Allocator, allocate, allocate_contiguous_procs, procs_from}

-- The `n` processes from `offset` on.
abbrev pub range : ℕ → ℕ → List ℕ
range offset zero = []
range offset (suc n) = offset ∷ range (suc offset) n

range-append : (offset m n : ℕ) → range offset (m + n) ≡ range offset m ++ range (offset + m) n
range-append offset zero n = let e : offset + 0 ≡ offset = omega arith in rw (zero-add n, e)
range-append offset (suc m) n =
    let e : suc m + n ≡ suc (m + n) = omega arith in
    let f : offset + suc m ≡ suc offset + m = omega arith in
    rw (e, f) (ap (◌∷◌ offset) (range-append (suc offset) m n))

procs_from-range :
    (offset i n : ℕ) → offset + i + n ≤ int_min → procs_from offset i n ≡ range (offset + i) n
unfolding procs_from
procs_from-range offset i zero h = refl
procs_from-range offset i (suc n) h =
    let e : int_add offset i ≡ offset + i = omega arith in
    let f : offset + (i + 1) ≡ suc (offset + i) = omega arith in
    rw e (ap (◌∷◌ (offset + i)) (rw (← f) (procs_from-range offset (i + 1) n (omega arith))))

-- The processes not handed out yet are the last `cur_p` ones, and their numbers are `int`s.
pub record IsValid (a : Allocator) : Type 0 where
  pub split : a.cur_offset + a.cur_p ≡ a.offset + a.p
  pub within : a.cur_p ≤ a.p
  pub bounded : a.offset + a.p < int_min

-- All calls of `allocate` in turn, and all processes they return.
unfoldable pub allocate_all : Allocator → List ℕ → Result (List ℕ × Allocator)
allocate_all a [] = ok ([], a)
allocate_all a (p ∷ ps) =
    allocate a p >>= λ (pids, a'). allocate_all a' ps >>= λ (rest, a''). ok (pids ++ rest, a'')

-- One call with a nonnegative count on a valid allocator: the next processes in order where enough
-- are left, else none and no change, and the allocator stays valid.
pub allocate_lem :
    (a : Allocator) (p : ℕ)
    → IsValid a
    → p < int_min
    → (k : ℕ) × (a' : Allocator) × (allocate a p ≡ ok (range a.cur_offset k, a'))
      × (k ≡ (if ltb a.cur_p p then 0 else p))
      × IsValid a'
      × (a'.cur_offset ≡ a.cur_offset + k)
      × (a'.cur_p + k ≡ a.cur_p)
unfolding allocate allocate_contiguous_procs
allocate_lem a p v h = elim (dec_lt a.cur_p p) [
  | yes few ↦
      let t : int_lt a.cur_p p ≡ true = ground arith in
      (0, a, rw t refl, ground arith, v, omega arith, omega arith)
  | no enough ↦
      let t : int_lt a.cur_p p ≡ false = ground arith in
      let r : ltb p int_min ≡ true = ground arith in
      let e : a.cur_offset + 0 ≡ a.cur_offset = omega arith in
      (
        p,
        record a { cur_p = int_sub a.cur_p p; cur_offset = int_add a.cur_offset p },
        rw (t, r, procs_from-range a.cur_offset 0 p (omega arith), e),
        ground arith,
        omega arith,
        omega arith,
        omega arith,
      )
]

-- On a valid allocator a sequence of allocations with nonnegative counts hands out, all results joined, a run of
-- consecutive processes that starts where the first call starts: no process is handed out twice,
-- none is skipped, none lies outside the allocator's own, and the allocator stays valid.
pub allocate_all_contiguous :
    (a : Allocator) (ps : List ℕ)
    → IsValid a
    → All (λ p. p < int_min) ps
    → (k : ℕ) × (a' : Allocator) × (allocate_all a ps ≡ ok (range a.cur_offset k, a'))
      × IsValid a'
      × (a'.cur_offset ≡ a.cur_offset + k)
      × (a'.cur_p + k ≡ a.cur_p)
unfolding allocate_all
allocate_all_contiguous a [] v h = (0, a, refl, v, omega arith, omega arith)
allocate_all_contiguous a (p ∷ ps) v h =
    let (k, b, e, _, w, o, c) = allocate_lem a p v h.0 in
    let (m, d, f, x, q, y) = allocate_all_contiguous b ps w h.1 in
    (k + m, d, rw (e, f, o, range-append a.cur_offset k m), x, omega arith, omega arith)
