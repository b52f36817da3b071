-- ===== src/Tests/Broadcast.antt =====
-- The broadcast of a distribution at concrete inputs.
use activebsp.Base.{ℕ, ◌≡◌, refl, [], ◌∷◌, arith, length, slice, inl, inr}
use activebsp.Distribution.VectorDistribution.{VectorDistribution, vector_distribution}
use activebsp.Store.DataStore.{Bytes}
use activebsp.Worker.Results.{dv_bytes}
use activebsp.Worker.Broadcast.{
  Member, puts_from, puts_nelems, grow_dv_buf, before_get, broadcast_dv,
}
use activebsp.Worker.Broadcast.Copies.{broadcast_dv_lem}

abbrev two_parts : VectorDistribution
two_parts = record {
  nelem = 2;
  parts =
      record { pid = 0; resid = 9; size = 6; offset = 0 }
      ∷ record { pid = 3; resid = 8; size = 5; offset = 6 }
      ∷ [];
}

abbrev first : Member
first = record { pid = 0; dv_buf_nelems = 0; dv_buf = 1 ∷ 2 ∷ []; dv = dv_bytes two_parts }

abbrev second : Member
second = record { pid = 1; dv_buf_nelems = 0; dv_buf = 3 ∷ 4 ∷ []; dv = [] }

abbrev gets : ℕ → ℕ → Bytes
gets offset n = slice offset n (before_get 2 first).1.dv_buf

second_has_it : (broadcast_dv 2 gets second).1.dv ≡ dv_bytes two_parts
unfolding broadcast_dv before_get grow_dv_buf vector_distribution
second_has_it = refl

broadcast_dv_lem_example :
    ((broadcast_dv 2 gets second).1.dv ≡ dv_bytes two_parts)
    × ((broadcast_dv 2 gets first).1.dv ≡ dv_bytes two_parts)
    × ((broadcast_dv 2 gets second).0 ≡ (broadcast_dv 2 gets first).0)
    × (length (broadcast_dv 2 gets second).1.dv_buf ≡ length (broadcast_dv 2 gets first).1.dv_buf)
unfolding puts_nelems puts_from
broadcast_dv_lem_example =
    broadcast_dv_lem first two_parts 3 gets second 2 2 refl refl
      (record { count = refl; short = omega arith }) (omega arith) refl refl (inl (refl, refl))
      (inr (inl (refl, refl))) (λ offset n. refl)
