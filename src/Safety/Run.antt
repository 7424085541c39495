-- ===== src/Safety/Run.antt =====
-- The invariant and the whole simulation: simulator.cpp.
use syncd_sim.Base.{
  empty_table, List-cases, ℕ, zero, suc, ◌+◌, ◌^◌, ◌%◌, ◌<◌, ◌≤◌, ◌≡◌, refl, List, [], ◌∷◌, arith,
  All, Bool-cases, inl, inr, ◌==◌,
}
use syncd_sim.Base.Effects.{Result, ok, err}
use syncd_sim.Base.Effects.Ensures.{Holds}
use syncd_sim.Types.{Task, TaskGraph, MemOp}
use syncd_sim.Cache.{CacheLine}
use syncd_sim.Context.{Config, World, new_context}
use syncd_sim.Context.Home.{IsConfig, positive}
use syncd_sim.Node.{run_context}
use syncd_sim.Simulator.{
  cap_tasks, Simulator, new_simulator, note_predecessor, complete_task, complete_tasks, run_turn,
  run_turns, run_cycle, run, is_positive,
}
use syncd_sim.Simulator.Assigned.{
  given, visited, visited_all, assign_task_lem, visit_successors_lem,
}
use syncd_sim.Safety.{IsWorld, IsTagged, InBounds}
use syncd_sim.Safety.Members.{IsContext-unread, put_context-IsWorld}
use syncd_sim.Safety.Node.{run_context-IsSafe}

-- A run that ends leaves a consistent world, and one that stops, stops in bounds.
abbrev pub Ends : Config → Result Simulator → Type 0
Ends cfg (ok sim) = IsWorld cfg sim.contexts
Ends cfg (err e) = InBounds e

-- A step of the simulation, and what follows it.
Ends-then :
    (cfg : Config) (r : Result Simulator) (f : Simulator → Result Simulator)
    → Ends cfg r
    → ((next : Simulator) → IsWorld cfg next.contexts → Ends cfg (f next))
    → Ends cfg (elim r [ err e ↦ err e | ok next ↦ f next ])
Ends-then cfg (ok next) f h k = k next h
Ends-then cfg (err e) f h k = h

module _ (cfg : Config) (tg : TaskGraph) where
  given-IsWorld : (task : Task) (w : World) → IsWorld cfg w → IsWorld cfg (given cfg task w)
  given-IsWorld task w i =
      put_context-IsWorld cfg _ w _ i
        (IsContext-unread (i.each (task.context_id % 2 ^ 32 % cfg.num_contexts)))

  visited-IsWorld :
      (sim : Simulator) (id : ℕ)
      → IsWorld cfg sim.contexts
      → IsWorld cfg (visited cfg tg sim id).contexts
  unfolding visited
  visited-IsWorld sim id i =
      elim (Bool-cases ((note_predecessor cfg tg sim.pending_successors id).count == 0)) [
        | inl e ↦ rw (e, visited) (given-IsWorld (tg.get_task_by_id id) sim.contexts i)
        | inr e ↦ rw (e, visited) i
      ]

  visited_all-IsWorld :
      (ids : List ℕ) (sim : Simulator)
      → IsWorld cfg sim.contexts
      → IsWorld cfg (visited_all cfg tg sim ids).contexts
  unfolding visited_all
  visited_all-IsWorld [] sim i = i
  visited_all-IsWorld (id ∷ ids) sim i =
      visited_all-IsWorld ids (visited cfg tg sim id) (visited-IsWorld sim id i)

  module _ (some_context : 0 < cfg.num_contexts) where
    complete_task-Ends :
        (sim : Simulator) (task : Task)
        → IsWorld cfg sim.contexts
        → Ends cfg (complete_task cfg tg sim task)
    unfolding complete_task
    complete_task-Ends sim task i = elim (List-cases task.successors) [
      | inl e ↦ rw (e, Ends, complete_task) i
      | inr (id, ids, e) ↦
          rw (e, visit_successors_lem cfg tg some_context (id ∷ ids) _, Ends, complete_task)
            (visited_all-IsWorld (id ∷ ids) _ i)
    ]

    complete_tasks-Ends :
        (tasks : List Task) (sim : Simulator)
        → IsWorld cfg sim.contexts
        → Ends cfg (complete_tasks cfg tg sim tasks)
    unfolding complete_tasks
    complete_tasks-Ends [] sim i = i
    complete_tasks-Ends (task ∷ tasks) sim i =
        Ends-then cfg (complete_task cfg tg sim task) _ (complete_task-Ends sim task i)
          (λ next j. complete_tasks-Ends tasks next j)

  module _ (ok_cfg : IsConfig cfg) (fuel : ℕ) where
    run_turn-Ends :
        (id : ℕ) (sim : Simulator)
        → id < cfg.num_contexts
        → IsWorld cfg sim.contexts
        → Ends cfg (run_turn cfg tg fuel id sim)
    unfolding run_turn
    run_turn-Ends id sim here i =
        after (run_context cfg id fuel sim.contexts)
          ((run_context-IsSafe cfg id ok_cfg here fuel).apply sim.contexts i)
      where
        after :
            (r : Result (Unit {0} × World))
            → Holds (IsWorld cfg) InBounds (λ _. Unit) r
            → Ends cfg (elim r [
              | err e ↦ err e
              | ok (u, w) ↦
                  complete_tasks cfg tg (record sim { contexts = w }) (w id).completed_tasks
            ])
        after (ok (u, w)) h = complete_tasks-Ends (positive ok_cfg) (w id).completed_tasks _ h.1
        after (err e) h = h

    run_turns-Ends :
        (id k : ℕ) (sim : Simulator)
        → id + k ≤ cfg.num_contexts
        → IsWorld cfg sim.contexts
        → Ends cfg (run_turns cfg tg fuel id k sim)
    unfolding run_turns
    run_turns-Ends id zero sim h i = i
    run_turns-Ends id (suc k) sim h i =
        Ends-then cfg (run_turn cfg tg fuel id sim) _ (run_turn-Ends id sim (omega arith) i)
          (λ next j. run_turns-Ends (suc id) k next (omega arith) j)

    run_cycle-Ends :
        (sim : Simulator) → IsWorld cfg sim.contexts → Ends cfg (run_cycle cfg tg fuel sim)
    unfolding run_cycle
    run_cycle-Ends sim i = run_turns-Ends 0 cfg.num_contexts _ (omega arith) i

    -- From a world that satisfies the invariant, with a number of contexts that is a power of two
    -- up to 2 ^ 48, a run of any length either ends in a world that satisfies it (consistent
    -- directories, messages from contexts on 48-bit addresses, lines of 48-bit addresses) or stops
    -- with a fault that is not an access to `contexts` or to a processor mask out of bounds.
    pub run-Ends :
        (cycles : ℕ) (sim : Simulator)
        → IsWorld cfg sim.contexts
        → Ends cfg (run cfg tg fuel cycles sim)
    unfolding run
    run-Ends zero sim i = elim (Bool-cases (is_positive cfg tg sim.num_unfinished_tasks)) [
      | inl e ↦ rw (e, Ends, run) tt
      | inr e ↦ rw (e, Ends, run) i
    ]
    run-Ends (suc cycles) sim i = elim (Bool-cases (is_positive cfg tg sim.num_unfinished_tasks)) [
      | inl e ↦
          rw (e, run)
            (Ends-then cfg (run_cycle cfg tg fuel sim) _ (run_cycle-Ends sim i) (run-Ends cycles))
      | inr e ↦ rw (e, Ends, run) i
    ]

  new_contexts-IsWorld :
      (op : ℕ → MemOp) (memory : ℕ → ℕ → List CacheLine)
      → ((id : ℕ) → (op id).addr < 2 ^ 48)
      → ((id k : ℕ) → All IsTagged (memory id k))
      → IsWorld cfg (λ id. new_context (op id) (memory id))
  unfolding new_context
  new_contexts-IsWorld op memory o t = record {
    each = λ id. record {
      directory = λ addr entry e. cc;
      incoming = tt;
      to_cache = tt;
      blocked = λ addr q e. cc;
      operation = o id;
      geometry = record { set_bits = refl; block_bits = refl; tag_bits = refl };
      tags = t id;
    };
  }

  -- The constructor of the simulator, with at least one context, makes a world that satisfies the
  -- invariant and stays in the bounds of `contexts`, if the initial memory operations have 48-bit
  -- addresses and the lines that the memory of the caches shows as valid have 37-bit tags.
  pub new_simulator-IsWorld :
      0 < cfg.num_contexts
      → (op : ℕ → MemOp) (memory : ℕ → ℕ → List CacheLine) → ((id : ℕ) → (op id).addr < 2 ^ 48)
      → ((id k : ℕ) → All IsTagged (memory id k))
      → (sim : Simulator) × (new_simulator cfg tg op memory ≡ ok sim) × IsWorld cfg sim.contexts
  unfolding new_simulator
  new_simulator-IsWorld some_context op memory o t = (
    record {
      contexts = given cfg tg.first_task (λ id. new_context (op id) (memory id));
      num_unfinished_tasks = cap_tasks tg.number_of_tasks;
      completed_predecessors = empty_table;
      pending_successors = empty_table;
      cycle_count = 0;
    },
    rw (assign_task_lem cfg tg some_context tg.first_task _, new_simulator) refl,
    given-IsWorld tg.first_task _ (new_contexts-IsWorld op memory o t),
  )
