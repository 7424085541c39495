-- ===== src/Simulator.antt =====
-- backend/Simulator/simulator.hpp and simulator.cpp: the cycle over all contexts, and the counts of
-- unfinished predecessors by which tasks become ready. The task graph is a parameter.
pub mod Assigned
pub mod Pending
pub mod Rounding
pub mod Report
use syncd_sim.Base.{
  ℕ, suc, zero, ℤ, pos, negsuc, ◌+◌, ◌-◌, ◌*◌, ◌/◌, ◌%◌, ◌^◌, Bool, true, false, not, ◌||◌, List,
  [], ◌∷◌, ◌++◌, Option, none, some, ◌==◌, ltb, length, if◌then◌else◌, Table, empty_table, assign,
  insert, erase, get_or, pred_ℤ, is_zero_ℤ,
}
use syncd_sim.Base.Effects.{
  Result, ok, err, Exec, gets, modify, pure, fail, skip, ◌>>=◌, ◌>>◌, out_of_fuel, no_context,
}
use syncd_sim.Types.{Task, TaskGraph, MemOp, ProtocolType, unfinished_task_cap}
use syncd_sim.Cache.{CacheLine}
use syncd_sim.Context.{Config, Context, World, put_context, new_context, log2, add_to_task_queue}
use syncd_sim.Node.{run_context}

-- `PendingTaskStatus`; `count` is unsigned, and is only decremented above 0.
pub record PendingTaskStatus : Type 0 where
  pub count : ℕ
  pub predecessors : List ℕ

-- The members of `Simulator` that change.
pub record Simulator : Type 0 where
  pub contexts : World
  pub num_unfinished_tasks : ℤ
  pub completed_predecessors : Table ℕ
  pub pending_successors : Table PendingTaskStatus
  pub cycle_count : ℕ

-- `unsigned long` arithmetic
abbrev pub dec64 : ℕ → ℕ
dec64 n = (n + 2 ^ 64 - 1) % 2 ^ 64

abbrev pub contains : ℕ → List ℕ → Bool
contains x [] = false
contains x (y ∷ ys) = x == y || contains x ys

-- `std::set<TaskId> s(preds.begin(), preds.end())`
unfoldable pub to_set : List ℕ → List ℕ
to_set [] = []
to_set (x ∷ xs) = let rest = to_set xs in if contains x rest then rest else x ∷ rest

-- The loop over the predecessors of a task that becomes ready: one child less for each.
unfoldable pub drop_children : List ℕ → Table ℕ → Table ℕ
drop_children [] completed = completed
drop_children (pred ∷ preds) completed =
    let left = dec64 (get_or (completed pred) 0) in
    drop_children preds (if left == 0 then erase completed pred else assign completed pred left)

-- `pow(2, floor(log(n)/log(2)))`
unfoldable pub round_contexts : ℕ → ℕ
unfolding log2
round_contexts n = 2 ^ log2 n

-- The number of tasks as an `int`, and at most `UNFINISHED_TASK_CAP`.
abbrev pub cap_tasks : ℕ → ℤ
cap_tasks n =
    let low = n % 2 ^ 32 in
    if ltb low (2 ^ 31)
    then pos (if ltb low unfinished_task_cap then low else unfinished_task_cap)
    else negsuc (2 ^ 32 - 1 - low)

module _ (cfg : Config) (tg : TaskGraph) where
  -- `contexts[cid % numContexts] -> addToTaskQueue(task)`
  unfoldable pub assign_task : Task → World → Result World
  assign_task task w =
      let cid = task.context_id % 2 ^ 32 % cfg.num_contexts in
      if ltb cid cfg.num_contexts
      then ok (put_context w cid (record (w cid) { task_queue = (w cid).task_queue ++ task ∷ [] }))
      else err no_context

  -- The constructor: contexts, and the first task on its context. `op` and `memory` are what the
  -- memory of each context holds.
  unfoldable pub new_simulator : (ℕ → MemOp) → (ℕ → ℕ → List CacheLine) → Result Simulator
  new_simulator op memory =
      elim (assign_task tg.first_task (λ id. new_context (op id) (memory id))) [
        | err e ↦ err e
        | ok w ↦ ok (record {
          contexts = w;
          num_unfinished_tasks = cap_tasks tg.number_of_tasks;
          completed_predecessors = empty_table;
          pending_successors = empty_table;
          cycle_count = 0;
        })
      ]

  -- One predecessor of the task is complete: the entry after that.
  unfoldable pub note_predecessor : Table PendingTaskStatus → ℕ → PendingTaskStatus
  note_predecessor pending id = elim (pending id) [
    | some status ↦ record status { count = dec64 status.count }
    | none ↦
        let preds = (tg.get_task_by_id id).predecessors in
        record { count = dec64 (length preds); predecessors = to_set preds }
  ]

  -- One round of the loop over successors.
  unfoldable pub visit_successor : Simulator → ℕ → Result Simulator
  visit_successor sim id =
      let status = note_predecessor sim.pending_successors id in
      if status.count == 0
      then elim (assign_task (tg.get_task_by_id id) sim.contexts) [
        | err e ↦ err e
        | ok w ↦ ok (record sim {
          contexts = w;
          completed_predecessors = drop_children status.predecessors sim.completed_predecessors;
          pending_successors = erase sim.pending_successors id;
        })
      ]
      else ok (record sim { pending_successors = assign sim.pending_successors id status })

  unfoldable pub visit_successors : Simulator → List ℕ → Result Simulator
  visit_successors sim [] = ok sim
  visit_successors sim (id ∷ ids) = elim (visit_successor sim id) [
    | err e ↦ err e
    | ok next ↦ visit_successors next ids
  ]

  -- One completed task.
  unfoldable pub complete_task : Simulator → Task → Result Simulator
  complete_task sim task =
      let counted = record sim { num_unfinished_tasks = pred_ℤ sim.num_unfinished_tasks } in
      elim task.successors [
        | [] ↦ ok counted
        | id ∷ ids ↦
            visit_successors
              (record counted {
                completed_predecessors =
                    insert sim.completed_predecessors task.task_id (suc (length ids) % 2 ^ 32);
              })
              (id ∷ ids)
      ]

  unfoldable pub complete_tasks : Simulator → List Task → Result Simulator
  complete_tasks sim [] = ok sim
  complete_tasks sim (task ∷ tasks) = elim (complete_task sim task) [
    | err e ↦ err e
    | ok next ↦ complete_tasks next tasks
  ]

  -- One context's turn: `c->run()`, then its completed tasks.
  unfoldable pub run_turn : ℕ → ℕ → Simulator → Result Simulator
  run_turn fuel id sim = elim (run_context cfg id fuel sim.contexts) [
    | err e ↦ err e
    | ok (u, w) ↦ complete_tasks (record sim { contexts = w }) (w id).completed_tasks
  ]

  -- The loop over the contexts from `id` on, with `k` to go.
  unfoldable pub run_turns : ℕ → ℕ → ℕ → Simulator → Result Simulator
  run_turns fuel id zero sim = ok sim
  run_turns fuel id (suc k) sim = elim (run_turn fuel id sim) [
    | err e ↦ err e
    | ok next ↦ run_turns fuel (suc id) k next
  ]

  -- One round of the `while` loop of `run`.
  unfoldable pub run_cycle : ℕ → Simulator → Result Simulator
  run_cycle fuel sim =
      run_turns fuel 0 cfg.num_contexts (record sim { cycle_count = sim.cycle_count + 1 })

  abbrev pub is_positive : ℤ → Bool
  is_positive (pos n) = ltb 0 n
  is_positive _ = false

  -- `run`, for at most `cycles` rounds.
  unfoldable pub run : ℕ → ℕ → Simulator → Result Simulator
  run fuel zero sim = if is_positive sim.num_unfinished_tasks then err out_of_fuel else ok sim
  run fuel (suc cycles) sim =
      if is_positive sim.num_unfinished_tasks
      then elim (run_cycle fuel sim) [ err e ↦ err e | ok next ↦ run fuel cycles next ]
      else ok sim
