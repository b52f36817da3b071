-- ===== src/Server/Results/Layout.antt =====
-- The distribution that `handleDistributeVectorMessage` lays out.
use activebsp.Base.{
  ap₂, ◌-◌, ◌*◌, ◌<◌, ◌≤◌, int_min, size_mod, ℕ, ◌+◌, ◌≡◌, refl, sym, ap, ◌∙◌, List, [], ◌∷◌, ◌++◌,
  append_assoc, arith, length, replicate, take, int_sub, size_sub, size_mul, ok, ◌>>=◌,
}
use activebsp.Distribution.BlockRange.{div_range, block_begin}
use activebsp.Distribution.BlockRange.Bounds.{mul_le, block_begin_le, div_range-block_begin}
use activebsp.Distribution.VectorDistribution.{
  Part, zero_part, VectorDistribution, vector_distribution, put_part, register_part, all_parts,
}
use activebsp.Server.State.{Server, distr_vector, send}
use activebsp.Server.Results.{register_blocks, handle_distribute_vector}

-- The part for block `i` of `p`.
abbrev pub block : ℕ → ℕ → ℕ → ℕ → ℕ → ℕ → Part
block n elem_size p next i pid =
    let r = div_range n i p in
    record {
      pid = pid;
      resid = next;
      size = size_mul (size_sub r.1 r.0) elem_size;
      offset = size_mul r.0 elem_size;
    }

-- Those from block `i` on, for the processes that are left.
abbrev pub blocks : ℕ → ℕ → ℕ → ℕ → ℕ → List ℕ → List Part
blocks n elem_size p next i [] = []
blocks n elem_size p next i (pid ∷ pids) =
    block n elem_size p next i pid ∷ blocks n elem_size p (int_sub next 1) (i + 1) pids

abbrev pub key_after : ℕ → List ℕ → ℕ
key_after next [] = next
key_after next (pid ∷ pids) = key_after (int_sub next 1) pids

put_part-append :
    (done : List Part) (q part : Part) (rest : List Part)
    → put_part (done ++ (q ∷ rest)) (length done) part ≡ ok (done ++ (part ∷ rest))
put_part-append [] q part rest = refl
put_part-append (d ∷ done) q part rest = rw (put_part-append done q part rest) refl

register_part-append :
    (nelem : ℕ) (done : List Part) (q part : Part) (rest : List Part)
    → register_part (record { nelem = nelem; parts = done ++ (q ∷ rest) }) (length done) part
      ≡ ok (record { nelem = nelem; parts = done ++ (part ∷ rest) })
unfolding register_part
register_part-append nelem done q part rest =
    rw (put_part-append done q part rest, register_part) refl

length-snoc : (done : List Part) (q : Part) → length (done ++ (q ∷ [])) ≡ length done + 1
length-snoc [] q = refl
length-snoc (d ∷ done) q = omega (arith, length-snoc done q)

register_blocks_lem :
    (n elem_size p next : ℕ) (pids : List ℕ) (done : List Part) (nelem : ℕ)
    → register_blocks n elem_size p next
        (length done)
        pids
        (record { nelem = nelem; parts = done ++ replicate (length pids) zero_part })
      ≡ ok (
        key_after next pids,
        record { nelem = nelem; parts = done ++ blocks n elem_size p next (length done) pids },
      )
unfolding register_blocks
register_blocks_lem n elem_size p next [] done nelem = refl
register_blocks_lem n elem_size p next (pid ∷ pids) done nelem =
    let new = block n elem_size p next (length done) pid in
    let room = replicate (length pids) zero_part in
    let later =
      register_blocks_lem n elem_size p (int_sub next 1) pids (done ++ (new ∷ [])) nelem in
    ap (λ r. r >>= λ dv'. register_blocks n elem_size p (int_sub next 1) (length done + 1) pids dv')
      (register_part-append nelem done zero_part new room)
    ∙ (rw
        (
          length-snoc done new,
          append_assoc done (new ∷ []) room,
          append_assoc done (new ∷ [])
              (blocks n elem_size p (int_sub next 1) (length done + 1) pids),
        )
        at later)

-- The distribution for a vector of `n` elements over some processes.
abbrev pub layout : ℕ → ℕ → ℕ → List ℕ → VectorDistribution
layout n elem_size next pids = record {
  nelem = length pids;
  parts = blocks n elem_size (length pids) next 0 pids;
}

-- The distribution that is sent back has the blocks that `div_range` gives.
pub handle_distribute_vector_lem :
    (s : Server) (src n elem_size : ℕ)
    → handle_distribute_vector s src n elem_size
      ≡ ok (
          send
            (record s {
              next_result_store_local_key = key_after s.next_result_store_local_key s.pids;
            })
            (distr_vector src (layout n elem_size s.next_result_store_local_key s.pids)))
unfolding handle_distribute_vector vector_distribution
handle_distribute_vector_lem s src n elem_size =
    rw
      (register_blocks_lem n elem_size (length s.pids) s.next_result_store_local_key s.pids []
        (length s.pids))
      refl

-- The part for the exact block `i` of `p`, and those from block `i` on.
abbrev exact_block : ℕ → ℕ → ℕ → ℕ → ℕ → ℕ → Part
exact_block n elem_size p next i pid = record {
  pid = pid;
  resid = next;
  size = (block_begin n p (i + 1) - block_begin n p i) * elem_size;
  offset = block_begin n p i * elem_size;
}

abbrev pub exact_blocks : ℕ → ℕ → ℕ → ℕ → ℕ → List ℕ → List Part
exact_blocks n elem_size p next i [] = []
exact_blocks n elem_size p next i (pid ∷ pids) =
    exact_block n elem_size p next i pid ∷ exact_blocks n elem_size p (int_sub next 1) (i + 1) pids

block-exact :
    (n elem_size p next i pid : ℕ)
    → i < p
    → p < int_min
    → n < int_min
    → n * elem_size < size_mod
    → block n elem_size p next i pid ≡ exact_block n elem_size p next i pid
block-exact n elem_size p next i pid inside few small fits =
    let (up, last) = block_begin_le n p i inside in
    let b = block_begin n p i in
    let e = block_begin n p (i + 1) in
    let length_small : elem_size * (e - b) ≤ elem_size * n =
      mul_le (e - b) n elem_size (omega (arith, last)) in
    let offset_small : elem_size * b ≤ elem_size * n =
      mul_le b n elem_size (omega (arith, up, last)) in
    let width : size_sub e b ≡ e - b = omega (arith, up, last, small) in
    let size : size_mul (e - b) elem_size ≡ (e - b) * elem_size =
      omega (arith, length_small, fits) in
    let offset : size_mul b elem_size ≡ b * elem_size = omega (arith, offset_small, fits) in
    rw (div_range-block_begin n i p inside few small, width, size, offset) refl

blocks-exact :
    (n elem_size p next i : ℕ) (pids : List ℕ)
    → i + length pids ≤ p
    → p < int_min
    → n < int_min
    → n * elem_size < size_mod
    → blocks n elem_size p next i pids ≡ exact_blocks n elem_size p next i pids
blocks-exact n elem_size p next i [] inside few small fits = refl
blocks-exact n elem_size p next i (pid ∷ pids) inside few small fits =
    ap₂ ◌∷◌ (block-exact n elem_size p next i pid (omega (arith, inside)) few small fits) (
      blocks-exact n elem_size p (int_sub next 1) (i + 1) pids (omega (arith, inside)) few small
        fits)

-- For a vector of fewer than 2 ^ 31 elements and 2 ^ 64 bytes, and as many processes as a
-- distribution of fewer than 2 ^ 31 bytes has room for, `handleDistributeVectorMessage` returns. It
-- sends back the distribution with one part for each process of the actor, in their order, with the
-- place and the size in bytes of the exact block of the process and with the next local key, which
-- counts down, and changes nothing else but that key.
pub handle_distribute_vector-blocks :
    (s : Server) (src n elem_size : ℕ)
    → 24 * length s.pids + 8 < int_min
    → n < int_min
    → n * elem_size < size_mod
    → handle_distribute_vector s src n elem_size
      ≡ ok (
          send
            (record s {
              next_result_store_local_key = key_after s.next_result_store_local_key s.pids;
            })
            (distr_vector src (record {
              nelem = length s.pids;
              parts =
                  exact_blocks n elem_size (length s.pids) s.next_result_store_local_key 0 s.pids;
            })))
handle_distribute_vector-blocks s src n elem_size few small fits =
    let key = s.next_result_store_local_key in
    handle_distribute_vector_lem s src n elem_size
    ∙ ap
        (λ parts. ok (
          send (record s { next_result_store_local_key = key_after key s.pids })
            (distr_vector src (record { nelem = length s.pids; parts = parts }))))
        (blocks-exact n elem_size (length s.pids) key 0 s.pids (omega arith) (omega (arith, few))
          small fits)

length-blocks :
    (n elem_size p next i : ℕ) (pids : List ℕ)
    → length (blocks n elem_size p next i pids) ≡ length pids
length-blocks n elem_size p next i [] = refl
length-blocks n elem_size p next i (pid ∷ pids) =
    let rest = length-blocks n elem_size p (int_sub next 1) (i + 1) pids in omega (arith, rest)

take-length : (xs : List Part) → take (length xs) xs ≡ xs
take-length [] = refl
take-length (x ∷ xs) = ap (◌∷◌ x) (take-length xs)

-- A loop over the distribution visits every block.
pub all_parts-layout :
    (n elem_size next : ℕ) (pids : List ℕ)
    → all_parts (layout n elem_size next pids) ≡ blocks n elem_size (length pids) next 0 pids
all_parts-layout n elem_size next pids =
    let all = blocks n elem_size (length pids) next 0 pids in
    ap (λ k. take k all) (sym (length-blocks n elem_size (length pids) next 0 pids))
    ∙ take-length all
