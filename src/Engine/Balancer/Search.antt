-- ===== src/Engine/Balancer/Search.antt =====
-- src/engine/balancer.rs: what the loop over the masks ends with.
use matchmaker.Base.{subst, subst, ℕ, zero, suc, ◌+◌, ◌≤◌, ◌<◌, ◌≡◌, ◌⊎◌, List, arith}
use matchmaker.Engine.Balancer.{
  Best, team_size, no_best, a_sum_of, delta_of, update_best, count_ones, consider, search_masks,
}
use native.Mathlib.Decide.{ℕ_discrete}

module _ (ratings : List ℕ) (total_sum : ℕ) where
  abbrev pub delta_at : ℕ → ℕ
  delta_at mask = delta_of total_sum (a_sum_of ratings mask)

  -- The best is at least as good as a mask: a smaller difference, or the same with no smaller sum
  -- for team A.
  abbrev pub NoWorse : Best → ℕ → Type 0
  NoWorse best mask =
      (best.delta < delta_at mask)
      ⊎ ((best.delta ≡ delta_at mask) × (a_sum_of ratings mask ≤ best.a_sum))

  -- The best is a mask with five bits, with its own sum and difference, or none was found.
  abbrev pub IsFound : ℕ → Best → Type 0
  IsFound end best =
      (best ≡ no_best)
      ⊎ ((count_ones best.mask ≡ team_size)
          × (best.mask < end)
          × (best.delta ≡ delta_at best.mask)
          × (best.a_sum ≡ a_sum_of ratings best.mask))

  update_best-NoWorse :
      (mask a : ℕ) (best : Best)
      → a ≡ a_sum_of ratings mask
      → NoWorse (update_best total_sum mask a best) mask
  unfolding update_best
  update_best-NoWorse mask a best e = ground arith

  consider-NoWorse :
      (mask : ℕ) (best : Best)
      → count_ones mask ≡ team_size
      → NoWorse (consider ratings total_sum mask best) mask
  unfolding consider
  consider-NoWorse mask best five = ground arith

  consider_keeps :
      (mask k : ℕ) (best : Best) → NoWorse best k → NoWorse (consider ratings total_sum mask best) k
  unfolding consider
  consider_keeps mask k best h = ground arith

  search_keeps :
      (rounds mask k : ℕ) (best : Best)
      → NoWorse best k
      → NoWorse (search_masks ratings total_sum rounds mask best) k
  unfolding search_masks
  search_keeps zero mask k best h = h
  search_keeps (suc n) mask k best h =
      search_keeps n (suc mask) k (consider ratings total_sum mask best)
        (consider_keeps mask k best h)

  pub search-NoWorse :
      (rounds mask k : ℕ) (best : Best)
      → mask ≤ k
      → k < mask + rounds
      → count_ones k ≡ team_size
      → NoWorse (search_masks ratings total_sum rounds mask best) k
  unfolding search_masks
  search-NoWorse zero mask k best lo hi five = absurd (omega arith)
  search-NoWorse (suc n) mask k best lo hi five = elim (ℕ_discrete k mask) [
    | yes e ↦
        search_keeps n (suc mask) k (consider ratings total_sum mask best)
          (rw e (consider-NoWorse mask best (subst (λ m. count_ones m ≡ team_size) e five)))
    | no ne ↦
        search-NoWorse n (suc mask) k (consider ratings total_sum mask best) (omega arith)
          (omega arith) five
  ]

  consider-IsFound :
      (mask : ℕ) (best : Best)
      → IsFound mask best
      → IsFound (suc mask) (consider ratings total_sum mask best)
  unfolding consider
  consider-IsFound mask best h = ground arith

  pub search-IsFound :
      (rounds mask : ℕ) (best : Best)
      → IsFound mask best
      → IsFound (rounds + mask) (search_masks ratings total_sum rounds mask best)
  unfolding search_masks
  search-IsFound zero mask best h = ground arith
  search-IsFound (suc n) mask best h = ground (
    arith,
    search-IsFound n (suc mask) (consider ratings total_sum mask best)
        (consider-IsFound mask best h),
  )
