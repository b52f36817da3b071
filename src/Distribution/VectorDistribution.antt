-- ===== src/Distribution/VectorDistribution.antt =====
-- ActiveBSP/src/vector_distribution.cpp: the table of the parts of a distributed vector. The C++
-- object is one buffer, the count of parts followed by the parts; here the two are fields. The size
-- of the buffer, an `int` in the code, is not narrowed: it is for fewer than 89478485 parts.
use activebsp.Base.{
  ℕ, zero, suc, ◌+◌, ◌*◌, max, List, [], ◌∷◌, ◌++◌, take, replicate, size_add, Result, ok, fault,
  out_of_bounds,
}

-- `vector_distribution_part_t`.
pub record Part : Type 0 where
  pub pid : ℕ
  pub resid : ℕ
  pub size : ℕ
  pub offset : ℕ

abbrev pub zero_part : Part
zero_part = record { pid = 0; resid = 0; size = 0; offset = 0 }

-- `parts` has as many entries as the buffer has room for.
pub record VectorDistribution : Type 0 where
  pub nelem : ℕ
  pub parts : List Part

-- `size_for_elems`, the bytes of a buffer: the first part is aligned to 8 bytes and each has 24.
unfoldable pub size_for_elems : ℕ → ℕ
size_for_elems nelem = 2 * 4 + nelem * 24

-- The constructor: a zeroed buffer with the count set.
unfoldable pub vector_distribution : ℕ → VectorDistribution
vector_distribution nelems = record { nelem = nelems; parts = replicate nelems zero_part }

abbrev pub put_part : List Part → ℕ → Part → Result (List Part)
put_part [] i part = fault out_of_bounds
put_part (q ∷ parts) zero part = ok (part ∷ parts)
put_part (q ∷ parts) (suc i) part = elim (put_part parts i part) [
  | ok rest ↦ ok (q ∷ rest)
  | fault e ↦ fault e
]

-- `register_part(i, pid, resid, size, offset)`.
unfoldable pub register_part : VectorDistribution → ℕ → Part → Result VectorDistribution
register_part dv i part = elim (put_part dv.parts i part) [
  | ok parts ↦ ok (record dv { parts = parts })
  | fault e ↦ fault e
]

-- `resize` changes the room of the buffer and not the count that stands in it.
unfoldable pub resize : VectorDistribution → ℕ → VectorDistribution
resize dv elems = record dv { parts = take elems (dv.parts ++ replicate elems zero_part) }

-- The parts that a loop over `i < nparts()` visits.
abbrev pub all_parts : VectorDistribution → List Part
all_parts dv = take dv.nelem dv.parts

vec_size_from : ℕ → List Part → ℕ
vec_size_from max_size [] = max_size
vec_size_from max_size (part ∷ parts) =
    vec_size_from (max max_size (size_add part.offset part.size)) parts

-- `getVecSize`: where the last part ends.
unfoldable pub get_vec_size : VectorDistribution → ℕ
unfolding vec_size_from
get_vec_size dv = vec_size_from 0 (all_parts dv)
