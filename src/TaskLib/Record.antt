-- ===== src/TaskLib/Record.antt =====
-- common/taskLib/Task.hpp and Task.cpp: a task, and the functions that change one.
use syncd_sim.Base.{ℕ, ◌+◌, Bool, true, false, List, [], ◌∷◌, ◌++◌, ◌==◌, ◌&&◌, if◌then◌else◌}
use syncd_sim.Base.Effects.{Exec, ok, err, assertion}
use syncd_sim.Types.{mem_read, mem_write, free, malloc, size, basic_block, memcpy}
use syncd_sim.TaskLib.Actions.{set_type, set_addr, set_pow_size, set_basic_block_id}

-- The numbers of `enum task_type`; a task read from a file may hold any other 32-bit number.
abbrev pub task_type_basic_blocks : ℕ
task_type_basic_blocks = 0

abbrev pub task_type_sync : ℕ
task_type_sync = 1

abbrev pub task_type_barrier : ℕ
task_type_barrier = 2

abbrev pub task_type_create : ℕ
task_type_create = 3

abbrev pub task_type_join : ℕ
task_type_join = 4

-- `sync_type_unknown`
abbrev pub sync_type_unknown : ℕ
sync_type_unknown = 0

-- The vectors `a`, `s` and `p` are actions, successors and predecessors.
pub record Task : Type 0 where
  pub task_id : ℕ
  pub start_time : ℕ
  pub end_time : ℕ
  pub actions : List ℕ
  pub successors : List ℕ
  pub predecessors : List ℕ
  pub type : ℕ
  pub sync_type : ℕ
  pub bb_count : ℕ

-- `Task(TaskId taskId, task_type type)`
abbrev pub new_task : ℕ → ℕ → Task
new_task id type = record {
  task_id = id;
  start_time = 0;
  end_time = 0;
  actions = [];
  successors = [];
  predecessors = [];
  type = type;
  sync_type = sync_type_unknown;
  bb_count = 0;
}

-- `a.push_back(action)`
abbrev pub push_action : ℕ → Task → Task
push_action a t = record t { actions = t.actions ++ (a ∷ []) }

-- A `MemoryAction` that is declared without a value starts with what its memory held, `junk`.
module _ (junk : ℕ) where
  unfoldable pub record_mem_op_action : Bool → ℕ → ℕ → Task → Task
  record_mem_op_action is_write pow_size addr = push_action (
      set_addr addr
        (set_pow_size pow_size (set_type (if is_write then mem_write else mem_read) junk)))

  unfoldable pub record_malloc_action : ℕ → ℕ → Task → Task
  record_malloc_action addr bytes t =
      let mem : ℕ = set_addr addr (set_type malloc junk) in
      push_action (set_addr bytes (set_type size mem)) (push_action mem t)

  unfoldable pub record_free_action : ℕ → Task → Task
  record_free_action addr = push_action (set_addr addr (set_type free junk))

  unfoldable pub record_mem_cpy_action : ℕ → ℕ → ℕ → Task → Task
  record_mem_cpy_action bytes dst src t =
      let to : ℕ = set_addr dst (set_type memcpy junk) in
      let from : ℕ = set_addr src to in
      push_action (set_addr bytes (set_type size from)) (push_action from (push_action to t))

  unfoldable pub record_basic_block_action : ℕ → Task → Task
  record_basic_block_action id t =
      let t' = push_action (set_basic_block_id id (set_type basic_block junk)) t in
      record t' { bb_count = t.bb_count + 1 }

-- `addSuccessor` and `addPredecessor`, whose assertion stops a task from following itself.
unfoldable pub add_successor : ℕ → Exec Task (Unit {0})
add_successor succ t =
    if t.task_id == succ
    then err assertion
    else ok (tt, record t { successors = t.successors ++ (succ ∷ []) })

unfoldable pub add_predecessor : ℕ → Exec Task (Unit {0})
add_predecessor pred t =
    if t.task_id == pred
    then err assertion
    else ok (tt, record t { predecessors = t.predecessors ++ (pred ∷ []) })

-- `std::find(v.begin(), v.end(), id) != v.end()`
unfoldable pub contains : ℕ → List ℕ → Bool
contains id [] = false
contains id (x ∷ xs) = if x == id then true else contains id xs

-- `*std::find(v.begin(), v.end(), old) = new`, where `old` is found.
unfoldable pub replace_first : ℕ → ℕ → List ℕ → List ℕ
replace_first old new [] = []
replace_first old new (x ∷ xs) = if x == old then new ∷ xs else x ∷ replace_first old new xs

-- The loop of `appendTask` over the successors of the appended task.
unfoldable pub redirect : ℕ → ℕ → List Task → List Task
redirect old new [] = []
redirect old new (t ∷ ts) =
    record t { predecessors = replace_first old new t.predecessors } ∷ redirect old new ts

-- `appendTask`: the task, and the tasks that followed the appended one.
unfoldable pub append_task : Task → List Task → Exec Task (List Task)
append_task app app_t t =
    if t.type == app.type && contains t.task_id app.predecessors
    then ok (
      redirect app.task_id t.task_id app_t,
      record t {
        actions = t.actions ++ app.actions;
        bb_count = t.bb_count + app.bb_count;
        successors = app.successors;
      },
    )
    else err assertion
