-- ===== src/Distribution/Ranges.antt =====
-- The part of a range of a distributed vector that one of its parts holds, as `dv_get_part` of
-- ActiveBSP/src/mpi/MPIActorCommunicator.cpp and `fetchDv` of ActorServer.cpp compute it.
use activebsp.Base.{
  ℕ, Bool, ◌||◌, min, leb, if◌then◌else◌, size_add, size_sub, ◌≡◌, ◌≤◌, ◌<◌, ◌+◌, arith, size_mod,
  false,
}
use activebsp.Distribution.VectorDistribution.{Part}

-- Where the bytes wanted begin in the part, and how many they are.
abbrev pub wanted_offset : ℕ → Part → ℕ
wanted_offset offset part = if leb part.offset offset then size_sub offset part.offset else 0

abbrev pub wanted_size : ℕ → ℕ → Part → ℕ
wanted_size offset end part =
    size_sub (min part.size (size_sub end part.offset)) (wanted_offset offset part)

-- The part has no byte of the range.
abbrev pub misses : ℕ → ℕ → Part → Bool
misses offset end part = leb (size_add part.offset part.size) offset || leb end part.offset

-- Where no sum wraps round, what is wanted of a part that is not skipped lies in the part and in the
-- range.
pub wanted_lem :
    (offset size : ℕ) (part : Part)
    → offset + size < size_mod
    → part.offset + part.size < size_mod
    → misses offset (offset + size) part ≡ false
    → (wanted_offset offset part + wanted_size offset (offset + size) part ≤ part.size)
      × (offset ≤ part.offset + wanted_offset offset part)
      × (part.offset + wanted_offset offset part + wanted_size offset (offset + size) part
          ≤ offset + size)
wanted_lem offset size part h k m = ground arith

-- Every byte that is both in the part and in the range is wanted.
pub wanted_all :
    (offset size : ℕ) (part : Part) (i : ℕ)
    → offset + size < size_mod
    → part.offset + part.size < size_mod
    → offset ≤ i
    → i < offset + size
    → part.offset ≤ i
    → i < part.offset + part.size
    → (misses offset (offset + size) part ≡ false)
      × (part.offset + wanted_offset offset part ≤ i)
      × (i < part.offset + wanted_offset offset part + wanted_size offset (offset + size) part)
wanted_all offset size part i h k lo hi from to = ground arith
