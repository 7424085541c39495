-- ===== src/Simulator/Report.antt =====
-- The totals that `Simulator::printResult` of simulator.cpp prints.
use syncd_sim.Base.{ℕ, zero, suc, ◌+◌, ◌≡◌, refl, arith}
use syncd_sim.Context.{Config, World, Stats, no_stats}

-- One round of the loop.
abbrev pub add_stats : Stats → Stats → Stats
add_stats a b = record {
  cache_hit = a.cache_hit + b.cache_hit;
  cache_miss = a.cache_miss + b.cache_miss;
  num_sent_msgs = a.num_sent_msgs + b.num_sent_msgs;
  num_sent_msgs_to_cache = a.num_sent_msgs_to_cache + b.num_sent_msgs_to_cache;
  num_invalidations_sent = a.num_invalidations_sent + b.num_invalidations_sent;
  e_state_count = a.e_state_count + b.e_state_count;
  m_state_count = a.m_state_count + b.m_state_count;
}

-- The loop over the contexts from `i` on, with `k` to go.
unfoldable pub total_loop : World → ℕ → ℕ → Stats → Stats
total_loop w i zero totals = totals
total_loop w i (suc k) totals = total_loop w (suc i) k (add_stats totals (w i).stats)

unfoldable pub total_stats : Config → World → Stats
total_stats cfg w = total_loop w 0 cfg.num_contexts no_stats

-- The sum of a number of each of the `k` contexts from `i` on.
abbrev pub sum_of : (ℕ → ℕ) → ℕ → ℕ → ℕ
sum_of f i zero = 0
sum_of f i (suc k) = f i + sum_of f (suc i) k

total_loop-sum_of :
    (field : Stats → ℕ)
    → ((a b : Stats) → field (add_stats a b) ≡ field a + field b)
    → (w : World) (i k : ℕ) (totals : Stats)
    → field (total_loop w i k totals) ≡ field totals + sum_of (λ j. field (w j).stats) i k
unfolding total_loop
total_loop-sum_of field adds w i zero totals = omega arith
total_loop-sum_of field adds w i (suc k) totals = omega (
  arith,
  total_loop-sum_of field adds w (suc i) k (add_stats totals (w i).stats),
  adds totals (w i).stats,
)

total_stats-field :
    (field : Stats → ℕ) (cfg : Config) (w : World)
    → field no_stats ≡ 0
    → ((a b : Stats) → field (add_stats a b) ≡ field a + field b)
    → field (total_stats cfg w) ≡ sum_of (λ id. field (w id).stats) 0 cfg.num_contexts
unfolding total_stats
total_stats-field field cfg w none adds =
    omega (arith, total_loop-sum_of field adds w 0 cfg.num_contexts no_stats, none)

-- Each of the seven totals that are printed (cache hits, cache misses, messages to nodes, messages
-- to caches, invalidations, EXCLUSIVE and MODIFIED states) is the sum of its counter over the
-- contexts.
pub total_stats-sum_of :
    (cfg : Config) (w : World)
    → let totals = total_stats cfg w in
      let total = λ (f : Stats → ℕ). sum_of (λ id. f (w id).stats) 0 cfg.num_contexts in
      (totals.cache_hit ≡ total (λ s. s.cache_hit))
      × (totals.cache_miss ≡ total (λ s. s.cache_miss))
      × (totals.num_sent_msgs ≡ total (λ s. s.num_sent_msgs))
      × (totals.num_sent_msgs_to_cache ≡ total (λ s. s.num_sent_msgs_to_cache))
      × (totals.num_invalidations_sent ≡ total (λ s. s.num_invalidations_sent))
      × (totals.e_state_count ≡ total (λ s. s.e_state_count))
      × (totals.m_state_count ≡ total (λ s. s.m_state_count))
total_stats-sum_of cfg w = (
  total_stats-field (λ s. s.cache_hit) cfg w refl (λ a b. refl),
  total_stats-field (λ s. s.cache_miss) cfg w refl (λ a b. refl),
  total_stats-field (λ s. s.num_sent_msgs) cfg w refl (λ a b. refl),
  total_stats-field (λ s. s.num_sent_msgs_to_cache) cfg w refl (λ a b. refl),
  total_stats-field (λ s. s.num_invalidations_sent) cfg w refl (λ a b. refl),
  total_stats-field (λ s. s.e_state_count) cfg w refl (λ a b. refl),
  total_stats-field (λ s. s.m_state_count) cfg w refl (λ a b. refl),
)
