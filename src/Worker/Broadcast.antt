-- ===== src/Worker/Broadcast.antt =====
-- `broadcast_dv` of ActiveBSP/src/Actor.cpp, as it is compiled with `BROADCASTDV_OPT` 0: the first
-- process of an actor gives the others its distribution of a vector, through the registered buffer
-- `_dv_buf`. What puts and gets bring at a barrier is the BSP library's.
pub mod Copies
use activebsp.Base.{
  ℕ, zero, suc, ◌-◌, ◌==◌, Bool, true, false, List, [], ◌∷◌, ◌++◌, length, ltb, replicate,
  copy_into, if◌then◌else◌, Result, ok, ◌>>=◌,
}
use activebsp.Distribution.VectorDistribution.{vector_distribution}
use activebsp.Store.DataStore.{Bytes}
use activebsp.Message.Fields.{read_int}
use activebsp.Worker.Results.{dv_bytes}

-- A process of the actor: `_dv_buf_nelems`, `_dv_buf`, and the buffer of the distribution.
pub record Member : Type 0 where
  pub pid : ℕ
  pub dv_buf_nelems : ℕ
  pub dv_buf : Bytes
  pub dv : Bytes

-- The loop of puts of `value` from process `i` on: the destinations and the values.
unfoldable pub puts_from : ℕ → ℕ → ℕ → List (ℕ × ℕ)
puts_from i zero value = []
puts_from i (suc left) value = (i, value) ∷ puts_from (suc i) left value

-- What a process puts before the first barrier.
unfoldable pub puts_nelems : Member → ℕ → Result (List (ℕ × ℕ))
unfolding puts_from
puts_nelems m nprocs =
    read_int m.dv >>= λ dv_buf_new. ok (if m.pid == 0 then puts_from 0 nprocs dv_buf_new else [])

-- The growth of `_dv_buf` to `n` bytes, and whether there is one: the process then waits at one more
-- barrier.
abbrev pub grows : Bytes → ℕ → Bool
grows dv_buf n = ltb (length dv_buf) n

unfoldable pub grow_dv_buf : Bytes → ℕ → Bytes
grow_dv_buf dv_buf n = if grows dv_buf n then dv_buf ++ replicate (n - length dv_buf) 0 else dv_buf

-- From the first barrier to the last one, where `nelems` was put in `_dv_buf_nelems`: it fits in a
-- buffer of less than 2 ^ 31 bytes.
unfoldable pub before_get : ℕ → Member → Bool × Member
unfolding grow_dv_buf
before_get nelems m =
    let dv = if m.pid == 0 then m.dv else dv_bytes (vector_distribution nelems) in
    let dv_buf = grow_dv_buf m.dv_buf (length dv) in
    (
      grows m.dv_buf (length dv),
      record {
        pid = m.pid;
        dv_buf_nelems = nelems;
        dv_buf = if m.pid == 0 then copy_into dv_buf 0 dv else dv_buf;
        dv = dv;
      },
    )

-- The whole of it, with what the get of an offset and a number of bytes of the first process's
-- `_dv_buf` brings at the last barrier.
unfoldable pub broadcast_dv : ℕ → (ℕ → ℕ → Bytes) → Member → Bool × Member
unfolding before_get
broadcast_dv nelems bsp_get m =
    let (waits, m1) = before_get nelems m in
    (
      waits,
      if m.pid == 0 then m1 else record m1 { dv = copy_into m1.dv 0 (bsp_get 0 (length m1.dv)) },
    )
