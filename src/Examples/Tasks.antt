-- ===== src/Examples/Tasks.antt =====
-- The simulation of three tasks on two contexts.
use syncd_sim.Base.{
  empty_table, subst, sym, ◌∙◌, ◌+◌, ℕ, ◌*◌, ◌^◌, ◌<◌, ◌≤◌, ◌≡◌, refl, List, [], ◌∷◌, arith, All,
}
use syncd_sim.Base.Effects.{ok, ok_injective}
use syncd_sim.Types.{MemOp, mem_write}
use syncd_sim.Cache.{CacheLine}
use syncd_sim.Simulator.Report.{total_stats, total_stats-sum_of}
use syncd_sim.Context.{no_stats, new_context, World, home_node_id}
use syncd_sim.Context.Home.{IsConfig, home_node_id-lt}
use syncd_sim.Simulator.{
  cap_tasks, assign_task, Simulator, new_simulator, run, round_contexts, visit_successors,
}
use syncd_sim.Simulator.Assigned.{given}
use syncd_sim.Simulator.Pending.{visits, NextVisit, visit_successors-NextVisit}
use syncd_sim.Simulator.Rounding.{round_contexts_bounds}
use syncd_sim.Safety.{IsWorld, IsTagged}
use syncd_sim.Safety.Run.{Ends, run-Ends, new_simulator-IsWorld}
use syncd_sim.Examples.Data.{free_line, mesi_config, diamond}

abbrev no_op : MemOp
no_op = record { addr = 0; action_type = mem_write }

abbrev blank_row : List CacheLine
blank_row = free_line ∷ free_line ∷ free_line ∷ free_line ∷ []

abbrev start : Simulator
start = record {
  contexts = given mesi_config diamond.first_task (λ id. new_context no_op (λ k. blank_row));
  num_unfinished_tasks = cap_tasks diamond.number_of_tasks;
  completed_predecessors = empty_table;
  pending_successors = empty_table;
  cycle_count = 0;
}

start_made : new_simulator mesi_config diamond (λ id. no_op) (λ id k. blank_row) ≡ ok start
unfolding new_simulator assign_task
start_made = refl

mesi_config-IsConfig : IsConfig mesi_config
mesi_config-IsConfig = record { exponent = 1; power = refl; small = omega arith }

blank_row-IsTagged : All IsTagged blank_row
blank_row-IsTagged = ((λ h. cc), ((λ h. cc), ((λ h. cc), ((λ h. cc), tt))))

new_simulator-IsWorld_example :
    (sim : Simulator) × (new_simulator mesi_config diamond (λ id. no_op) (λ id k. blank_row)
      ≡ ok sim)
    × IsWorld mesi_config sim.contexts
new_simulator-IsWorld_example =
    new_simulator-IsWorld mesi_config diamond (omega arith) (λ id. no_op) (λ id k. blank_row)
      (λ id. omega arith) (λ id k. blank_row-IsTagged)

start-IsWorld : IsWorld mesi_config start.contexts
start-IsWorld =
    let (sim, made, i) =
      new_simulator-IsWorld mesi_config diamond (omega arith) (λ id. no_op) (λ id k. blank_row)
        (λ id. omega arith) (λ id k. blank_row-IsTagged) in
    subst (λ s. IsWorld mesi_config s.contexts) (ok_injective (sym made ∙ start_made)) i

run-Ends_example : Ends mesi_config (run mesi_config diamond 10 20 start)
run-Ends_example = run-Ends mesi_config diamond mesi_config-IsConfig 10 20 start start-IsWorld

home_node_id-lt_example : home_node_id mesi_config 200000000000000 < 2
home_node_id-lt_example =
    home_node_id-lt mesi_config 200000000000000 mesi_config-IsConfig (omega arith)

round_contexts_bounds_example :
    (round_contexts 6 ≤ 6) × (6 < 2 * round_contexts 6) × ((k : ℕ) × (round_contexts 6 ≡ 2 ^ k))
round_contexts_bounds_example = round_contexts_bounds 6 (omega arith)

visit_successors-NextVisit_example :
    (now : Simulator) × (visit_successors mesi_config diamond start (5 ∷ 2 ∷ []) ≡ ok now)
    × NextVisit mesi_config diamond 2 1 now
unfolding visits
visit_successors-NextVisit_example =
    visit_successors-NextVisit mesi_config diamond 2 (5 ∷ 2 ∷ []) start (omega arith) refl
      (omega arith) (omega arith)

-- Context `id` has `id + 3` cache hits.
abbrev counted_world : World
counted_world id = record (start.contexts id) { stats = record no_stats { cache_hit = id + 3 } }

total_stats-sum_of_example :
    let totals = total_stats mesi_config counted_world in
    (totals.cache_hit ≡ 7)
    × (totals.cache_miss ≡ 0)
    × (totals.num_sent_msgs ≡ 0)
    × (totals.num_sent_msgs_to_cache ≡ 0)
    × (totals.num_invalidations_sent ≡ 0)
    × (totals.e_state_count ≡ 0)
    × (totals.m_state_count ≡ 0)
total_stats-sum_of_example = total_stats-sum_of mesi_config counted_world
