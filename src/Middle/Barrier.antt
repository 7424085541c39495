-- ===== src/Middle/Barrier.antt =====
-- middle/BarrierWrapper.cpp: the tasks that stand for a barrier, which contexts enter and leave.
pub mod Search
pub mod Calls
pub mod Entered
pub mod Inside
pub mod Changes
pub mod Meanwhile
pub mod Leaves
use syncd_sim.Base.{
  ℕ, suc, ◌+◌, Bool, true, false, not, ◌&&◌, List, [], ◌∷◌, ◌++◌, ◌==◌, length, ltb, if◌then◌else◌,
  Option, none, some,
}
use syncd_sim.Base.{Table, assign}
use syncd_sim.Base.Effects.{Result, ok, err, stray_memory, assertion}
use syncd_sim.Base.Effects.Results.{◌>>=◌, ◌>>◌, check, expect}
use syncd_sim.TaskLib.Ids.{get_context_id, get_next}
use syncd_sim.TaskLib.Record.{
  Task, new_task, record_mem_op_action, add_successor, add_predecessor, task_type_barrier,
}

-- The tasks by their addresses, and the members of `BarrierWrapper`.
pub record Barrier : Type 0 where
  pub tasks : Table Task
  pub entry_barrier_task : Option ℕ
  pub exit_barrier_tasks : List ℕ

abbrev pub task_at : Table Task → ℕ → Result Task
task_at tasks p = expect (tasks p) stray_memory

-- A call of a method of the task at an address.
unfoldable pub update : ℕ → (Task → Result (Unit {0} × Task)) → Table Task → Result (Table Task)
update p method tasks = do t ← task_at tasks p; (_, t') ← method t; ok (assign tasks p t')

abbrev pub set_end_time : ℕ → Task → Result (Unit {0} × Task)
set_end_time time t = ok (tt, record t { end_time = time })

abbrev pub set_start_time : ℕ → Task → Result (Unit {0} × Task)
set_start_time time t = ok (tt, record t { start_time = time })

-- The loops that look for a task of a context.
unfoldable pub has_context : ℕ → List ℕ → Bool
has_context cid [] = false
has_context cid (tid ∷ tids) = if get_context_id tid == cid then true else has_context cid tids

-- The loop of `onEnter` over the exits: `hasExitedBarrier` and `ebt`.
unfoldable pub enter_loop : ℕ → Table Task → Bool → ℕ → List ℕ → Result (Bool × ℕ)
enter_loop cid tasks has_exited ebt [] = ok (has_exited, ebt)
enter_loop cid tasks has_exited ebt (p ∷ ps) = do
  t ← task_at tasks p
  if has_context cid t.predecessors then enter_loop cid tasks true p ps else ok (false, p)

-- The exit barrier that an arriving task joins, if there is one.
unfoldable pub exit_to_join : ℕ → Table Task → List ℕ → Result (Option ℕ)
exit_to_join cid tasks [] = ok none
exit_to_join cid tasks (p ∷ ps) = do
  (has_exited, ebt) ← enter_loop cid tasks false 0 (p ∷ ps)
  ok (if has_exited then none else some ebt)

-- A new barrier task at the address `fresh`, if no barrier is being entered.
unfoldable pub entry_task : ℕ → ℕ → ℕ → Task → Barrier → ℕ × Barrier
entry_task junk fresh addr a b = elim b.entry_barrier_task [
  | some p ↦ (p, b)
  | none ↦ (
    fresh,
    record b {
      tasks =
          assign b.tasks fresh (
            record_mem_op_action junk true 8 addr
              (new_task (get_next a.task_id) task_type_barrier));
      entry_barrier_task = some fresh;
    },
  )
]

-- `onEnter` where an exit barrier is found for the arriving task.
unfoldable pub join_exit : ℕ → ℕ → ℕ → Barrier → Result (ℕ × Barrier)
join_exit arriving time ebt b = do
  a ← task_at b.tasks arriving
  e ← task_at b.tasks ebt
  tasks1 ← update arriving (add_successor e.task_id) b.tasks
  tasks2 ← update ebt (add_predecessor a.task_id) tasks1
  tasks3 ← update arriving (set_end_time time) tasks2
  ok (ebt, record b { tasks = tasks3 })

-- And where it joins the barrier that is being entered, whose start is the latest arrival.
unfoldable pub join_entry : ℕ → ℕ → ℕ → Barrier → Result (ℕ × Barrier)
join_entry arriving time ebt b = do
  a ← task_at b.tasks arriving
  e ← task_at b.tasks ebt
  let start : ℕ = if ltb time e.start_time then e.start_time else time
  tasks1 ← update ebt (set_start_time start) b.tasks
  tasks2 ← update arriving (add_successor e.task_id) tasks1
  tasks3 ← update arriving (set_end_time time) tasks2
  tasks4 ← update ebt (add_predecessor a.task_id) tasks3
  ok (ebt, record b { tasks = tasks4 })

-- `onEnter` for the task at `arriving`: the barrier's task.
unfoldable pub on_enter : ℕ → ℕ → ℕ → ℕ → ℕ → Barrier → Result (ℕ × Barrier)
on_enter junk fresh arriving time addr b = do
  a ← task_at b.tasks arriving
  exit ← exit_to_join (get_context_id a.task_id) b.tasks b.exit_barrier_tasks
  elim exit [
    | some ebt ↦ join_exit arriving time ebt b
    | none ↦ let (ebt, b') = entry_task junk fresh addr a b in join_entry arriving time ebt b'
  ]

-- What the loop of `onExit` keeps: `exitT`, `hasArrivedBarrier` and `hasExitedBarrier`.
pub record Exit : Type 0 where
  pub exit_t : ℕ
  pub has_arrived : Bool
  pub has_exited : Bool

unfoldable pub exit_loop : ℕ → Table Task → Exit → List ℕ → Result Exit
exit_loop cid tasks x [] = ok x
exit_loop cid tasks x (p ∷ ps) = do
  t ← task_at tasks p
  if not (has_context cid t.predecessors)
      then exit_loop cid tasks (record x { exit_t = p; has_arrived = false }) ps
      else if not (has_context cid t.successors)
      then ok (record { exit_t = p; has_arrived = true; has_exited = false })
      else exit_loop cid tasks (record { exit_t = p; has_arrived = true; has_exited = true }) ps

-- The exit barrier that a departing task leaves, if there is one.
unfoldable pub exit_to_leave : ℕ → Table Task → List ℕ → Result (Option ℕ)
exit_to_leave cid tasks ps = do
  x ← exit_loop cid tasks (record { exit_t = 0; has_arrived = false; has_exited = false }) ps
  ok (if x.has_arrived && not x.has_exited then some x.exit_t else none)

-- The barrier that is being entered becomes the youngest that is being left.
unfoldable pub open_exit : ℕ → ℕ → Barrier → Result (ℕ × Barrier)
open_exit cid exit_time b = do
  p ← expect b.entry_barrier_task assertion
  e ← task_at b.tasks p
  check (has_context cid e.predecessors) assertion
  tasks' ← update p (set_end_time exit_time) b.tasks
  ok (
    p,
    record {
      tasks = tasks';
      entry_barrier_task = none;
      exit_barrier_tasks = b.exit_barrier_tasks ++ (p ∷ []);
    },
  )

-- `exitBarrierTasks.remove(p)`
unfoldable pub without : ℕ → List ℕ → List ℕ
without p [] = []
without p (q ∷ qs) = if q == p then without p qs else q ∷ without p qs

-- The barrier has finished when all but the one that departs have left.
unfoldable pub close_exit : ℕ → Barrier → Result ((ℕ × Bool) × Barrier)
close_exit p b = do
  t ← task_at b.tasks p
  if length t.predecessors == 1 + length t.successors
      then ok ((p, true), record b { exit_barrier_tasks = without p b.exit_barrier_tasks })
      else ok ((p, false), b)

-- `onExit` for the task at `departing`: the barrier's task, and whether it is finished.
unfoldable pub on_exit : ℕ → ℕ → Barrier → Result ((ℕ × Bool) × Barrier)
on_exit departing exit_time b = do
  d ← task_at b.tasks departing
  exit ← exit_to_leave (get_context_id d.task_id) b.tasks b.exit_barrier_tasks
  elim exit [
    | some p ↦ close_exit p b
    | none ↦ do (p, b') ← open_exit (get_context_id d.task_id) exit_time b; close_exit p b'
  ]
