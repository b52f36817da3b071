-- ===== src/Base/Maps.antt =====
-- `std::map<int, V>`, as the function that `find` computes. `assign` is `m[k] = v`, and
-- `insert_new` is `insert` or `emplace`, which leave an entry that is there.
use Prim.Native.Nat.{ℕ}
use mathlib.Core.Bool.{Bool, true, false}
use mathlib.Core.Option.{Option, none, some}
use activebsp.Base.Tests.{◌==◌, if◌then◌else◌}

abbrev pub Map : Type 0 → Type 0
Map V = ℕ → Option V

abbrev pub empty_map : {V : Type 0} → Map V
empty_map k = none

abbrev pub assign : {V : Type 0} → ℕ → V → Map V → Map V
assign k v m j = if j == k then some v else m j

abbrev pub erase : {V : Type 0} → ℕ → Map V → Map V
erase k m j = if j == k then none else m j

abbrev pub insert_new : {V : Type 0} → ℕ → V → Map V → Map V
insert_new k v m = elim (m k) [ none ↦ assign k v m | some _ ↦ m ]

abbrev pub has_key : {V : Type 0} → Map V → ℕ → Bool
has_key m k = elim (m k) [ none ↦ false | some _ ↦ true ]

-- `m[k]`, which makes a default entry where there is none.
abbrev pub value_or : {V : Type 0} → V → Option V → V
value_or d none = d
value_or d (some v) = v

abbrev pub touch : {V : Type 0} → V → ℕ → Map V → Map V
touch d k m = assign k (value_or d (m k)) m
