-- ===== src/Simulator/Rounding.antt =====
-- The number of contexts that the constructor of the simulator rounds to.
use syncd_sim.Base.{ℕ, ◌*◌, ◌^◌, ◌≤◌, ◌<◌, ◌≡◌, refl}
use syncd_sim.Context.{log2}
use syncd_sim.Context.Home.{log2_bounds}
use syncd_sim.Simulator.{round_contexts}

-- A positive number of contexts is rounded to a power of two that is not above it and more than
-- half of it.
pub round_contexts_bounds :
    (n : ℕ)
    → 0 < n
    → (round_contexts n ≤ n) × (n < 2 * round_contexts n) × ((k : ℕ) × (round_contexts n ≡ 2 ^ k))
unfolding round_contexts
round_contexts_bounds n p = let (low, high) = log2_bounds n p in (low, high, (log2 n, refl))
