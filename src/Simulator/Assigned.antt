-- ===== src/Simulator/Assigned.antt =====
-- The assignment of tasks in the constructor and in `run` of simulator.cpp, when there are contexts.
use syncd_sim.Base.{
  ℕ, ◌^◌, ◌%◌, ◌<◌, ◌≡◌, refl, List, [], ◌∷◌, ◌++◌, ◌==◌, inl, inr, if◌then◌else◌, Bool-cases,
  lt→ltb, assign, erase,
}
use native.Mathlib.Nat.{mod-lt}
use syncd_sim.Base.Effects.{ok}
use syncd_sim.Types.{Task, TaskGraph}
use syncd_sim.Context.{Config, World, put_context}
use syncd_sim.Simulator.{
  Simulator, assign_task, note_predecessor, drop_children, visit_successor, visit_successors,
}

-- The contexts after the task is given to its own.
abbrev pub given : Config → Task → World → World
given cfg task w =
    let cid = task.context_id % 2 ^ 32 % cfg.num_contexts in
    put_context w cid (record (w cid) { task_queue = (w cid).task_queue ++ task ∷ [] })

module _ (cfg : Config) (tg : TaskGraph) where
  -- The simulator after a visit of a task.
  unfoldable pub visited : Simulator → ℕ → Simulator
  visited sim id =
      let status = note_predecessor cfg tg sim.pending_successors id in
      if status.count == 0
      then record sim {
        contexts = given cfg (tg.get_task_by_id id) sim.contexts;
        completed_predecessors = drop_children status.predecessors sim.completed_predecessors;
        pending_successors = erase sim.pending_successors id;
      }
      else record sim { pending_successors = assign sim.pending_successors id status }

  unfoldable pub visited_all : Simulator → List ℕ → Simulator
  visited_all sim [] = sim
  visited_all sim (id ∷ ids) = visited_all (visited sim id) ids

  module _ (some_context : 0 < cfg.num_contexts) where
    -- The access to `contexts` is in bounds.
    pub assign_task_lem :
        (task : Task) (w : World) → assign_task cfg tg task w ≡ ok (given cfg task w)
    unfolding assign_task
    assign_task_lem task w =
        rw
          (
            lt→ltb (task.context_id % 2 ^ 32 % cfg.num_contexts) cfg.num_contexts
                (mod-lt (task.context_id % 2 ^ 32) some_context),
            assign_task,
          )
          refl

    pub visit_successor_lem :
        (sim : Simulator) (id : ℕ) → visit_successor cfg tg sim id ≡ ok (visited sim id)
    unfolding visit_successor visited
    visit_successor_lem sim id =
        elim (Bool-cases ((note_predecessor cfg tg sim.pending_successors id).count == 0)) [
          | inl e ↦
              rw (e, assign_task_lem (tg.get_task_by_id id) sim.contexts, visit_successor, visited)
                refl
          | inr e ↦ rw (e, visit_successor, visited) refl
        ]

    pub visit_successors_lem :
        (ids : List ℕ) (sim : Simulator)
        → visit_successors cfg tg sim ids ≡ ok (visited_all sim ids)
    unfolding visit_successors visited_all
    visit_successors_lem [] sim = refl
    visit_successors_lem (id ∷ ids) sim =
        rw (visit_successor_lem sim id, visit_successors, visited_all)
          (visit_successors_lem ids (visited sim id))
