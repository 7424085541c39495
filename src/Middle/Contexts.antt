-- ===== src/Middle/Contexts.antt =====
-- middle/Context.cpp: the tasks of a traced context that are not written yet, and the joins that wait
-- for the contexts that it has created.
use syncd_sim.Base.{
  ℕ, suc, zero, ◌+◌, ◌-◌, ◌%◌, ◌^◌, Bool, true, false, not, List, [], ◌∷◌, ◌==◌, ltb, if◌then◌else◌,
  Option, none, some, ℤ, pos, negsuc, pred_ℤ, is_zero_ℤ, Table, assign, get_or,
}
use syncd_sim.Base.{erase}
use syncd_sim.Base.Effects.{Result, ok, err, stray_memory, assertion}
use syncd_sim.Base.Effects.Results.{◌>>=◌, ◌>>◌, check, expect}
use syncd_sim.TaskLib.Ids.{get_context_id, get_next}
use syncd_sim.TaskLib.Record.{
  Task, new_task, add_successor, add_predecessor, task_type_basic_blocks, task_type_join,
}
use syncd_sim.Middle.Barrier.{task_at, update, set_end_time}

-- The members of `Context` that its functions use, and the tasks by their addresses. `tasks` maps
-- numbers to addresses, in ascending order.
pub record TaskContext : Type 0 where
  pub store : Table Task
  pub tasks : List (ℕ × ℕ)
  pub creator_map : Table ℕ
  pub join_map : Table ℕ
  pub join_count_map : Table ℤ
  pub end_time : ℕ
  pub current_time : ℕ

-- `tasks.rbegin()->second`
unfoldable pub active_task : List (ℕ × ℕ) → Result ℕ
active_task [] = err stray_memory
active_task ((tid, p) ∷ []) = ok p
active_task (e ∷ (f ∷ tasks)) = active_task (f ∷ tasks)

-- `tasks[tid] = p`
unfoldable pub put_address : ℕ → ℕ → List (ℕ × ℕ) → List (ℕ × ℕ)
put_address tid p [] = (tid, p) ∷ []
put_address tid p ((k, q) ∷ tasks) =
    if ltb tid k
    then (tid, p) ∷ ((k, q) ∷ tasks)
    else if tid == k
    then (k, p) ∷ tasks
    else (k, q) ∷ put_address tid p tasks

unfoldable pub find_address : ℕ → List (ℕ × ℕ) → Option ℕ
find_address tid [] = none
find_address tid ((k, p) ∷ tasks) = if k == tid then some p else find_address tid tasks

unfoldable pub erase_task : ℕ → List (ℕ × ℕ) → List (ℕ × ℕ)
erase_task tid [] = []
erase_task tid ((k, p) ∷ tasks) = if k == tid then tasks else (k, p) ∷ erase_task tid tasks

-- `getCreator`, which stops where no task has created the context.
unfoldable pub get_creator : ℕ → TaskContext → Result (ℕ × TaskContext)
get_creator cid c = do
  tid ← expect (c.creator_map cid) assertion
  ok (tid, record c { creator_map = erase c.creator_map cid })

abbrev pub is_idle : Option ℤ → Bool
is_idle none = true
is_idle (some n) = is_zero_ℤ n

-- `removeTask`: whether the task was there.
unfoldable pub remove_address : ℕ → TaskContext → Result (Bool × TaskContext)
remove_address p c = do
  t ← task_at c.store p
  check (if t.type == task_type_join then is_idle (c.join_count_map t.task_id) else true) assertion
  ok (elim (find_address t.task_id c.tasks) [
    | none ↦ (false, c)
    | some q ↦ (true, record c { tasks = erase_task t.task_id c.tasks })
  ])

-- `n + 1`
unfoldable pub succ_ℤ : ℤ → ℤ
succ_ℤ (pos n) = pos (suc n)
succ_ℤ (negsuc zero) = pos 0
succ_ℤ (negsuc (suc n)) = negsuc n

-- `joinCountMap[tid]--` and `joinCountMap[tid]++`, where a missing count is 0.
abbrev pub fewer_joins : ℕ → Table ℤ → Table ℤ
fewer_joins tid counts = assign counts tid (pred_ℤ (get_or (counts tid) (pos 0)))

abbrev pub more_joins : ℕ → Table ℤ → Table ℤ
more_joins tid counts = assign counts tid (succ_ℤ (get_or (counts tid) (pos 0)))

abbrev pub is_there : Option ℕ → Bool
is_there none = false
is_there (some p) = true

-- `childExits`: the join task that waits for the child's context, or a null pointer.
unfoldable pub child_exits : ℕ → TaskContext → Result (Option ℕ × TaskContext)
child_exits child_id c = elim (c.join_map (get_context_id child_id)) [
  | none ↦ ok (none, c)
  | some r ↦ do
    t ← task_at c.store r
    check (is_there (find_address t.task_id c.tasks)) assertion
    ok (
      some r,
      record c {
        join_map = erase c.join_map (get_context_id child_id);
        join_count_map = fewer_joins t.task_id c.join_count_map;
      },
    )
]

unfoldable pub get_child_join : ℕ → ℕ → TaskContext → Result TaskContext
get_child_join ctid tj c = do
  t ← task_at c.store tj
  ok (record c {
    join_map = assign c.join_map ctid tj;
    join_count_map = more_joins t.task_id c.join_count_map;
  })

abbrev pub is_positive_ℤ : ℤ → Bool
is_positive_ℤ (pos zero) = false
is_positive_ℤ (pos (suc n)) = true
is_positive_ℤ (negsuc n) = false

unfoldable pub is_complete_join : ℕ → TaskContext → Bool × TaskContext
is_complete_join tid c = elim (c.join_count_map tid) [
  | none ↦ (true, c)
  | some n ↦
      if is_positive_ℤ n
      then (false, c)
      else (true, record c { join_count_map = erase c.join_count_map tid })
]

-- `createBasicBlockContinuation`, with the address for the new task.
unfoldable pub create_basic_block_continuation : ℕ → TaskContext → Result TaskContext
create_basic_block_continuation fresh c = do
  p ← active_task c.tasks
  a ← task_at c.store p
  let id : ℕ = get_next a.task_id
  let t : Task = record (new_task id task_type_basic_blocks) { start_time = a.end_time }
  store1 ← update p (add_successor id) (assign c.store fresh t)
  store2 ← update fresh (add_predecessor a.task_id) store1
  ok (record c { store = store2; tasks = put_address id fresh c.tasks })

-- A basic block task where the active task is of another type: the address `fresh`, if it is made.
unfoldable pub fill_in : ℕ → TaskContext → Result (Option ℕ × TaskContext)
fill_in fresh c = do
  p ← active_task c.tasks
  a ← task_at c.store p
  if a.type == task_type_basic_blocks
      then ok (none, c)
      else (create_basic_block_continuation fresh c >>= λ c'. ok (some fresh, c'))

-- The part of `createContinuation` that makes the task, at the address `fresh`.
unfoldable pub continue_with : ℕ → ℕ → ℕ → ℕ → TaskContext → Result TaskContext
continue_with fresh type start end c = do
  p ← active_task c.tasks
  a ← task_at c.store p
  let id : ℕ = get_next a.task_id
  store1 ← update p (set_end_time start) c.store
  let t : Task = record (new_task id type) { start_time = start; end_time = end }
  store2 ← update p (add_successor id) (assign store1 fresh t)
  store3 ← update fresh (add_predecessor a.task_id) store2
  ok (record c { store = store3; tasks = put_address id fresh c.tasks; current_time = end })

-- The task that is filled in leaves the context and goes to the writer.
unfoldable pub drop_filled : Option ℕ → TaskContext → Result TaskContext
drop_filled none c = ok c
drop_filled (some p) c = do (removed, c') ← remove_address p c; ok c'

-- `createContinuation` with the addresses for new tasks: the task for the writer, if there is one.
-- Times that lie before the context's are moved up to it.
unfoldable pub create_continuation :
    ℕ → ℕ → ℕ → ℕ → ℕ → TaskContext → Result (Option ℕ × TaskContext)
create_continuation fresh1 fresh2 type t_start t_end c = do
  check (not (type == task_type_basic_blocks)) assertion
  (filled, c1) ← fill_in fresh1 c
  check (c1.end_time == 0) assertion
  let delta : ℕ = c1.current_time - t_start
  let end : ℕ = if ltb t_start c1.current_time then (t_end + delta) % 2 ^ 64 else t_end
  c2 ←
      continue_with fresh2 type (if ltb t_start c1.current_time then c1.current_time else t_start)
        end c1
  c3 ← drop_filled filled c2
  ok (filled, c3)
