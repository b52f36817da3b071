-- ===== src/Worker/Broadcast/Copies.antt =====
-- That every process has the distribution of the first one after `broadcast_dv`.
use activebsp.Base.{
  ℕ, zero, suc, ◌+◌, ◌*◌, ◌-◌, ◌<◌, ◌≡◌, refl, sym, ap, ◌∙◌, arith, ◌==◌, true, false, List, length,
  length-append, length-replicate, ltb, replicate, copy_into, copy_into_all, slice, take, take_all,
  drop, take-append_le, subst, max, ap₂, length-copy_into, ok, Any, inl, inr, int_min,
}
use activebsp.Distribution.VectorDistribution.{VectorDistribution, vector_distribution, zero_part}
use activebsp.Store.DataStore.{Bytes}
use activebsp.Message.Fields.{read_int, int_bytes_join}
use activebsp.Worker.Results.{dv_bytes}
use activebsp.Worker.Results.Table.{length-table_bytes}
use activebsp.Worker.Broadcast.{
  Member, puts_from, puts_nelems, grows, grow_dv_buf, before_get, broadcast_dv,
}

-- One of the puts is of `value` to process `pid`.
abbrev pub IsPut : List (ℕ × ℕ) → ℕ → ℕ → Type 0
IsPut puts pid value = Any (λ put. (put.0 ≡ pid) × (put.1 ≡ value)) puts

puts_from-IsPut : (i left n : ℕ) (pid value : ℕ) → IsPut (puts_from i left n) pid value → n ≡ value
unfolding puts_from
puts_from-IsPut i zero n pid value h = absurd h
puts_from-IsPut i (suc left) n pid value (inl (e, e')) = e'
puts_from-IsPut i (suc left) n pid value (inr h) = puts_from-IsPut (suc i) left n pid value h

-- A distribution with as many parts as it says, whose buffer has less than 2 ^ 31 bytes.
pub record IsWhole (dv : VectorDistribution) : Type 0 where
  pub count : length dv.parts ≡ dv.nelem
  pub short : 8 + 24 * dv.nelem < int_min

length-dv_bytes : (dv : VectorDistribution) → length (dv_bytes dv) ≡ 8 + 24 * length dv.parts
length-dv_bytes dv = omega (arith, length-table_bytes dv.parts)

length-new : (n : ℕ) → length (dv_bytes (vector_distribution n)) ≡ 8 + 24 * n
unfolding vector_distribution
length-new n = omega (arith, length-dv_bytes (vector_distribution n), length-replicate n zero_part)

read_int-dv_bytes : (dv : VectorDistribution) → IsWhole dv → read_int (dv_bytes dv) ≡ ok dv.nelem
read_int-dv_bytes dv v = ap ok (int_bytes_join dv.nelem (omega (arith, v.short)))

-- What the first process puts, and only that, is the number of its parts.
put_lem :
    (head : Member) (dv : VectorDistribution) (nprocs pid value : ℕ) {puts : List (ℕ × ℕ)}
    → head.pid ≡ 0
    → head.dv ≡ dv_bytes dv
    → IsWhole dv
    → puts_nelems head nprocs ≡ ok puts
    → IsPut puts pid value
    → dv.nelem ≡ value
unfolding puts_nelems
put_lem head dv nprocs pid value {puts = puts} e e' v h put =
    let first : (head.pid == 0) ≡ true = ground (arith, e) in
    let there : read_int head.dv ≡ ok dv.nelem = rw e' (read_int-dv_bytes dv v) in
    let same : puts_from 0 nprocs dv.nelem ≡ puts = ground (arith, h, there, first) in
    puts_from-IsPut 0 nprocs dv.nelem pid value (subst (λ ps. IsPut ps pid value) (sym same) put)

take-copy_into : (dst src : Bytes) → take (length src) (copy_into dst 0 src) ≡ src
take-copy_into dst src =
    take-append_le (length src) src (drop (0 + length src) dst) (omega arith)
    ∙ take_all (length src) src (omega arith)

length-grow_dv_buf :
    (dv_buf : Bytes) (n : ℕ) → length (grow_dv_buf dv_buf n) ≡ max (length dv_buf) n
unfolding grow_dv_buf
length-grow_dv_buf dv_buf n = ground (
  arith,
  length-append dv_buf (replicate (n - length dv_buf) 0),
  length-replicate {A = ℕ} (n - length dv_buf) 0,
)

-- The first process before the last barrier, and another one.
head_before :
    (m : Member) (n : ℕ)
    → m.pid ≡ 0
    → before_get n m ≡ (
      grows m.dv_buf (length m.dv),
      record {
        pid = m.pid;
        dv_buf_nelems = n;
        dv_buf = copy_into (grow_dv_buf m.dv_buf (length m.dv)) 0 m.dv;
        dv = m.dv;
      },
    )
unfolding before_get
head_before m n e = let first : (m.pid == 0) ≡ true = ground (arith, e) in rw first refl

other_before :
    (m : Member) (n : ℕ)
    → (m.pid == 0) ≡ false
    → before_get n m ≡ (
      grows m.dv_buf (length (dv_bytes (vector_distribution n))),
      record {
        pid = m.pid;
        dv_buf_nelems = n;
        dv_buf = grow_dv_buf m.dv_buf (length (dv_bytes (vector_distribution n)));
        dv = dv_bytes (vector_distribution n);
      },
    )
unfolding before_get
other_before m n other = rw other refl

-- A process with what it does behind the last barrier.
head_after :
    (m : Member) (n : ℕ) (bsp_get : ℕ → ℕ → Bytes)
    → m.pid ≡ 0
    → broadcast_dv n bsp_get m ≡ before_get n m
unfolding broadcast_dv
head_after m n bsp_get e = let first : (m.pid == 0) ≡ true = ground (arith, e) in rw first refl

other_after :
    (m : Member) (n : ℕ) (bsp_get : ℕ → ℕ → Bytes)
    → (m.pid == 0) ≡ false
    → broadcast_dv n bsp_get m ≡ (
      grows m.dv_buf (length (dv_bytes (vector_distribution n))),
      record {
        pid = m.pid;
        dv_buf_nelems = n;
        dv_buf = grow_dv_buf m.dv_buf (length (dv_bytes (vector_distribution n)));
        dv =
            copy_into
              (dv_bytes (vector_distribution n))
              0
              (bsp_get 0 (length (dv_bytes (vector_distribution n))));
      },
    )
unfolding broadcast_dv before_get
other_after m n bsp_get other = rw other refl

-- What a get of the whole `_dv_buf` leaves in a distribution of the right size.
got_lem :
    (room src : Bytes) (dst : Bytes)
    → length dst ≡ length src
    → copy_into dst 0 (take (length dst) (copy_into room 0 src)) ≡ src
got_lem room src dst e =
    ap (λ k. copy_into dst 0 (take k (copy_into room 0 src))) e
    ∙ ap (copy_into dst 0) (take-copy_into room src)
    ∙ copy_into_all dst src (sym e)

module _ (head : Member) (dv : VectorDistribution) (nprocs : ℕ) (bsp_get : ℕ → ℕ → Bytes) where
  -- The first process has a distribution with as many parts as it says, in a buffer of less than
  -- 2 ^ 31 bytes, and another process has a `_dv_buf` of the same size. What each finds in
  -- `_dv_buf_nelems` was put there by the first process, and a get brings the bytes that the first
  -- process's `_dv_buf` has at the last barrier. After `broadcast_dv` both have the first one's
  -- distribution, byte by byte. They have waited at the same barriers, and their buffers are again of
  -- the same size.
  pub broadcast_dv_lem :
      (m : Member) (at_head at_m : ℕ) {puts : List (ℕ × ℕ)}
      → head.pid ≡ 0
      → head.dv ≡ dv_bytes dv
      → IsWhole dv
      → (m.pid ≡ 0 → ⊥)
      → length m.dv_buf ≡ length head.dv_buf
      → puts_nelems head nprocs ≡ ok puts
      → IsPut puts head.pid at_head
      → IsPut puts m.pid at_m
      → ((offset n : ℕ) → bsp_get offset n ≡ slice offset n (before_get at_head head).1.dv_buf)
      → ((broadcast_dv at_m bsp_get m).1.dv ≡ dv_bytes dv)
        × ((broadcast_dv at_head bsp_get head).1.dv ≡ dv_bytes dv)
        × ((broadcast_dv at_m bsp_get m).0 ≡ (broadcast_dv at_head bsp_get head).0)
        × (length (broadcast_dv at_m bsp_get m).1.dv_buf
            ≡ length (broadcast_dv at_head bsp_get head).1.dv_buf)
  broadcast_dv_lem m at_head at_m first e v other sizes h put put' gets =
      let fresh = dv_bytes (vector_distribution at_m) in
      let n_m = put_lem head dv nprocs m.pid at_m first e v h put' in
      let is_other : (m.pid == 0) ≡ false = ground (arith, other) in
      let long : length fresh ≡ length head.dv =
        omega (arith, length-new at_m, length-dv_bytes dv, v.count, n_m, ap length e) in
      let begin = head_before head at_head first in
      let here = head_after head at_head bsp_get first ∙ begin in
      let there = other_after m at_m bsp_get is_other in
      let room = grow_dv_buf head.dv_buf (length head.dv) in
      (
        ap (λ r. r.1.dv) there
            ∙ ap (copy_into fresh 0)
                (gets 0 (length fresh) ∙ ap (λ r. slice 0 (length fresh) r.1.dv_buf) begin)
            ∙ got_lem room head.dv fresh long
            ∙ e,
        ap (λ r. r.1.dv) here ∙ e,
        ap (λ r. r.0) there ∙ ap₂ ltb sizes long ∙ sym (ap (λ r. r.0) here),
        ap (λ r. length r.1.dv_buf) there
            ∙ omega (
              arith,
              length-grow_dv_buf m.dv_buf (length fresh),
              length-grow_dv_buf head.dv_buf (length head.dv),
              length-copy_into room 0 head.dv
                  (omega (arith, length-grow_dv_buf head.dv_buf (length head.dv))),
              long,
              sizes,
            )
            ∙ sym (ap (λ r. length r.1.dv_buf) here),
      )
