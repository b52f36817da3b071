-- ===== src/Distribution.antt =====
-- How a vector of bytes is split over the processes of an actor: ActiveBSP/src/distributions,
-- ActiveBSP/src/vector_distribution.cpp, ActiveBSP/src/procassign and Distributor.h.
pub mod BlockRange
pub mod VectorDistribution
pub mod Allocator
pub mod Ranges
use activebsp.Base.{ℕ, size_sub}
use BlockRange.{div_range}

-- One item of `distribution_t` in Distributor.h.
pub record DistributionItem : Type 0 where
  pub offset : ℕ
  pub size : ℕ

-- `BlockDistributor(s, p)::distribution_part(size)`: its vector has this one item.
pub distribution_part : ℕ → ℕ → ℕ → DistributionItem
distribution_part s p size =
    let (offset, part_end) = div_range size s p in
    record { offset = offset; size = size_sub part_end offset }
