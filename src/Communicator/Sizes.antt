-- ===== src/Communicator/Sizes.antt =====
-- The number of parts that `receiveDistrVector` works out from the size of a message.
use activebsp.Base.{ℕ, ◌<◌, ◌≡◌, arith, int_min}
use activebsp.Distribution.VectorDistribution.{size_for_elems}
use activebsp.Communicator.{received_parts}

-- The buffer of a distribution of `n` parts is received as a distribution of `n` parts, although its
-- sender counts 8 bytes before the first part and its receiver 4, as long as its size is an `int`;
-- and its size determines the number of parts.
pub received_parts-size_for_elems :
    (n : ℕ)
    → size_for_elems n < int_min
    → (received_parts (size_for_elems n) ≡ n)
      × ((m : ℕ) → size_for_elems m ≡ size_for_elems n → m ≡ n)
unfolding received_parts size_for_elems
received_parts-size_for_elems n small = (omega arith, λ m e. omega arith)
