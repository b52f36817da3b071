-- ===== src/Worker/Results.antt =====
-- The results of an actor's processes: `store_result` and the registration of parts in
-- ActiveBSP/src/Actor.cpp, and `gather_distr_parts` of include/Actor.hpp.
pub mod Table
pub mod Gather
pub mod Reading
use activebsp.Base.{
  ℕ, zero, suc, ◌+◌, ◌*◌, List, [], ◌∷◌, ◌++◌, length, copy_into, Result, ok, ◌>>=◌,
}
use activebsp.Distribution.VectorDistribution.{
  Part, VectorDistribution, vector_distribution, register_part,
}
use activebsp.Store.DataStore.{Bytes}
use activebsp.Store.Futures.{take_key}
use activebsp.Message.{store_result}
use activebsp.Message.Fields.{int_bytes, size_bytes}
use activebsp.Server.State.{Sent, actor_message}

-- The process's number, the next key of its `FutureKeyManager`, `_cur_vector_distribution` and what
-- was sent, oldest first.
pub record Results : Type 0 where
  pub pid : ℕ
  pub next_key : ℕ
  pub cur_vector_distribution : VectorDistribution
  pub sent : List Sent

-- `store_result(buf, size)`: the data goes to the process's own server, under a new key.
unfoldable pub actor_store_result : Results → Bytes → ℕ × Results
actor_store_result r buf =
    let (key, next) = take_key r.next_key in
    (
      key,
      record r {
        next_key = next;
        sent = r.sent ++ (actor_message r.pid (store_result key buf) ∷ []);
      },
    )

-- `prepare_distr_result`, without the registration of the buffer with the BSP library.
unfoldable pub prepare_distr_result : Results → ℕ → Results
prepare_distr_result r nparts = record r { cur_vector_distribution = vector_distribution nparts }

-- `register_result_part`.
unfoldable pub register_result_part : Results → ℕ → ℕ → ℕ → ℕ → Result Results
register_result_part r ipart resid size offset =
    register_part r.cur_vector_distribution ipart
      (record { pid = r.pid; resid = resid; size = size; offset = offset })
    >>= λ dv. ok (record r { cur_vector_distribution = dv })

-- `register_single_part_result`.
unfoldable pub register_single_part_result : Results → Bytes → ℕ → Result Results
unfolding actor_store_result prepare_distr_result register_result_part
register_single_part_result r bytes offset =
    let (resid, stored) = actor_store_result r bytes in
    register_result_part (prepare_distr_result stored 1) 0 resid (length bytes) offset

-- The bytes of a part, and of the buffer of a distribution: the count, four bytes of padding that the
-- vector sets to 0, and the parts.
abbrev pub part_bytes : Part → Bytes
part_bytes p = int_bytes p.pid ++ (int_bytes p.resid ++ (size_bytes p.size ++ size_bytes p.offset))

abbrev pub table_bytes : List Part → Bytes
table_bytes [] = []
table_bytes (p ∷ ps) = part_bytes p ++ table_bytes ps

abbrev pub dv_bytes : VectorDistribution → Bytes
dv_bytes dv = int_bytes dv.nelem ++ (int_bytes 0 ++ table_bytes dv.parts)

-- `vector_distribution_base::parts_offset` and `parts_size`.
abbrev pub parts_offset : ℕ
parts_offset = 4

abbrev pub parts_size : ℕ
parts_size = 24

-- `bsp_get(s, base, offset, dst, nbytes)` after the next synchronisation: the bytes that it copies.
module _ (bsp_get : ℕ → ℕ → ℕ → Bytes) where
  -- The loop of `gather_distr_parts` from process `s` on, over the processes that are left.
  unfoldable pub gather_from : ℕ → ℕ → ℕ → Bytes → Bytes
  gather_from part_size s zero dst = dst
  gather_from part_size s (suc left) dst =
      gather_from part_size (suc s) left
        (copy_into dst (parts_offset + s * part_size) (bsp_get s parts_offset part_size))

  -- `gather_distr_parts` on a process whose own distribution has `nparts` parts.
  unfoldable pub gather_distr_parts : ℕ → ℕ → Bytes
  unfolding gather_from
  gather_distr_parts nparts nprocs =
      gather_from (nparts * parts_size) 0 nprocs (dv_bytes (vector_distribution (nparts * nprocs)))
