-- ===== src/TaskLib/Built.antt =====
-- A task that is built by the functions of common/taskLib/Task.cpp can be stored: its words and
-- numbers fit their types, and its count of basic blocks is that of its actions.
use syncd_sim.Base.{
  ℕ, ◌+◌, ◌%◌, ◌^◌, ◌<◌, Bool, true, false, List, [], ◌∷◌, ◌++◌, ◌==◌, if◌then◌else◌, ◌≡◌, refl,
  ◌∙◌, subst, All, All-append, arith,
}
use syncd_sim.Base.Effects.{ok}
use syncd_sim.Types.{ActionType, mem_read, mem_write, free, malloc, size, basic_block, memcpy}
use syncd_sim.TaskLib.Actions.{
  IsWord, get_type, set_type, set_addr, set_basic_block_id, is_basic_block_action, memory_word,
  sized_word, block_word, type_code,
}
use syncd_sim.TaskLib.Record.{
  Task, new_task, push_action, record_mem_op_action, record_malloc_action, record_free_action,
  record_mem_cpy_action, record_basic_block_action, add_successor, add_predecessor, append_task,
}
use syncd_sim.TaskLib.Codec.{count_blocks}
use syncd_sim.TaskLib.RoundTrip.{IsTask}

count_blocks-append : (xs ys : List ℕ) → count_blocks (xs ++ ys) ≡ count_blocks xs + count_blocks ys
unfolding count_blocks
count_blocks-append [] ys = omega arith
count_blocks-append (x ∷ xs) ys = omega (arith, count_blocks-append xs ys)

count_blocks_push :
    (xs : List ℕ) (a : ℕ)
    → count_blocks (xs ++ (a ∷ [])) ≡ count_blocks xs + (if is_basic_block_action a then 1 else 0)
unfolding count_blocks
count_blocks_push xs a = omega (arith, count_blocks-append xs (a ∷ []))

-- An action of another type leaves the count as it is.
push_action-IsTask :
    (a : ℕ) (t : Task) (type : ActionType)
    → IsWord a
    → get_type a ≡ type_code type % 8
    → (type_code type == 6) ≡ false
    → IsTask t
    → IsTask (push_action a t)
unfolding is_basic_block_action
push_action-IsTask a t type w e other h = record {
  id = h.id;
  start = h.start;
  end = h.end;
  actions = All-append IsWord t.actions (a ∷ []) h.actions (w, tt);
  successors = h.successors;
  predecessors = h.predecessors;
  type = h.type;
  sync = h.sync;
  blocks = ground (arith, count_blocks_push t.actions a, h.blocks);
}

-- What changes a task.
pub data Change : Task → Task → Type 0 where
  by_mem_op :
      (junk : ℕ) (is_write : Bool) (pow_size addr : ℕ) (t : Task)
      → IsWord junk
      → Change t (record_mem_op_action junk is_write pow_size addr t)
  by_malloc :
      (junk addr bytes : ℕ) (t : Task)
      → IsWord junk
      → Change t (record_malloc_action junk addr bytes t)
  by_free : (junk addr : ℕ) (t : Task) → IsWord junk → Change t (record_free_action junk addr t)
  by_mem_cpy :
      (junk bytes dst src : ℕ) (t : Task)
      → IsWord junk
      → Change t (record_mem_cpy_action junk bytes dst src t)
  by_basic_block :
      (junk id : ℕ) (t : Task) → IsWord junk → Change t (record_basic_block_action junk id t)
  by_successor : (id : ℕ) (t u : Task) → IsWord id → add_successor id t ≡ ok (tt, u) → Change t u
  by_predecessor :
      (id : ℕ) (t u : Task) → IsWord id → add_predecessor id t ≡ ok (tt, u) → Change t u
  -- `setStartTime`, `setEndTime`, `setType` and `setSyncType`
  by_setters :
      (start end type sync : ℕ) (t : Task)
      → IsWord start
      → IsWord end
      → type < 2 ^ 32
      → sync < 2 ^ 32
      → Change t (record t { start_time = start; end_time = end; type = type; sync_type = sync })
  by_append :
      (app : Task) (app_t rest : List Task) (t u : Task)
      → IsTask app
      → append_task app app_t t ≡ ok (rest, u)
      → Change t u

new_task-IsTask : (id type : ℕ) → IsWord id → type < 2 ^ 32 → IsTask (new_task id type)
unfolding count_blocks
new_task-IsTask id type h k = omega arith

memory-IsTask :
    (junk a : ℕ) (type : ActionType) (t : Task)
    → IsWord junk
    → (type_code type == 6) ≡ false
    → IsTask t
    → IsTask (push_action (set_addr a (set_type type junk)) t)
memory-IsTask junk a type t w other h =
    let (fits, _, same) = memory_word junk a type w in push_action-IsTask _ t type fits same other h

block-IsTask :
    (junk id : ℕ) (t : Task) → IsWord junk → IsTask t → IsTask (record_basic_block_action junk id t)
unfolding record_basic_block_action is_basic_block_action
block-IsTask junk id t w h = record {
  id = h.id;
  start = h.start;
  end = h.end;
  actions = All-append IsWord t.actions (_ ∷ []) h.actions ((block_word junk id w).0, tt);
  successors = h.successors;
  predecessors = h.predecessors;
  type = h.type;
  sync = h.sync;
  blocks = ground (
    arith,
    count_blocks_push t.actions (set_basic_block_id id (set_type basic_block junk)),
    block_word junk id w,
    h.blocks,
  );
}

-- A word that only gets another address.
moved_word : (w a : ℕ) → IsWord w → IsWord (set_addr a w) × (get_type (set_addr a w) ≡ get_type w)
moved_word w a h = omega arith

mem_cpy-IsTask :
    (junk bytes dst src : ℕ) (t : Task)
    → IsWord junk
    → IsTask t
    → IsTask (record_mem_cpy_action junk bytes dst src t)
unfolding record_mem_cpy_action
mem_cpy-IsTask junk bytes dst src t w h =
    let (fits, _, same) = memory_word junk dst memcpy w in
    let (fits', same') = moved_word _ src fits in
    memory-IsTask _ bytes size _ fits' refl (
      push_action-IsTask _ _ memcpy fits' (same' ∙ same) refl
        (push_action-IsTask _ t memcpy fits same refl h))

follows : (id : ℕ) (xs : List ℕ) → IsWord id → All IsWord xs → All IsWord (xs ++ (id ∷ []))
follows id xs w h = All-append IsWord xs (id ∷ []) h (w, tt)

add_successor_lem :
    (id : ℕ) (t u : Task)
    → add_successor id t ≡ ok (tt, u)
    → record t { successors = t.successors ++ (id ∷ []) } ≡ u
unfolding add_successor
add_successor_lem id t u e = ground arith

add_predecessor_lem :
    (id : ℕ) (t u : Task)
    → add_predecessor id t ≡ ok (tt, u)
    → record t { predecessors = t.predecessors ++ (id ∷ []) } ≡ u
unfolding add_predecessor
add_predecessor_lem id t u e = ground arith

append_task_lem :
    (app : Task) (app_t rest : List Task) (t u : Task)
    → append_task app app_t t ≡ ok (rest, u)
    → record t {
      actions = t.actions ++ app.actions;
      bb_count = t.bb_count + app.bb_count;
      successors = app.successors;
    }
      ≡ u
unfolding append_task
append_task_lem app app_t rest t u e = ground arith

append-IsTask :
    (app : Task) (t : Task)
    → IsTask app
    → IsTask t
    → IsTask (record t {
      actions = t.actions ++ app.actions;
      bb_count = t.bb_count + app.bb_count;
      successors = app.successors;
    })
append-IsTask app t k h = record {
  id = h.id;
  start = h.start;
  end = h.end;
  actions = All-append IsWord t.actions app.actions h.actions k.actions;
  successors = k.successors;
  predecessors = h.predecessors;
  type = h.type;
  sync = h.sync;
  blocks = omega (arith, count_blocks-append t.actions app.actions, h.blocks, k.blocks);
}

pub Change-IsTask : {t u : Task} → Change t u → IsTask t → IsTask u
unfolding record_mem_op_action record_malloc_action record_free_action
Change-IsTask (by_mem_op junk true pow_size addr t w) h =
    let (fits, _, _, same) = sized_word junk addr pow_size mem_write w in
    push_action-IsTask _ t mem_write fits same refl h
Change-IsTask (by_mem_op junk false pow_size addr t w) h =
    let (fits, _, _, same) = sized_word junk addr pow_size mem_read w in
    push_action-IsTask _ t mem_read fits same refl h
Change-IsTask (by_malloc junk addr bytes t w) h =
    memory-IsTask _ bytes size _ (memory_word junk addr malloc w).0 refl
      (memory-IsTask junk addr malloc t w refl h)
Change-IsTask (by_free junk addr t w) h = memory-IsTask junk addr free t w refl h
Change-IsTask (by_mem_cpy junk bytes dst src t w) h = mem_cpy-IsTask junk bytes dst src t w h
Change-IsTask (by_basic_block junk id t w) h = block-IsTask junk id t w h
Change-IsTask (by_successor id t u w e) h = subst IsTask (add_successor_lem id t u e) (record {
  id = h.id;
  start = h.start;
  end = h.end;
  actions = h.actions;
  predecessors = h.predecessors;
  successors = follows id t.successors w h.successors;
  type = h.type;
  sync = h.sync;
  blocks = h.blocks;
})
Change-IsTask (by_predecessor id t u w e) h = subst IsTask (add_predecessor_lem id t u e) (record {
  id = h.id;
  start = h.start;
  end = h.end;
  actions = h.actions;
  successors = h.successors;
  predecessors = follows id t.predecessors w h.predecessors;
  type = h.type;
  sync = h.sync;
  blocks = h.blocks;
})
Change-IsTask (by_setters start end type sync t hs he ht hy) h = record {
  id = h.id;
  start = hs;
  end = he;
  actions = h.actions;
  successors = h.successors;
  predecessors = h.predecessors;
  type = ht;
  sync = hy;
  blocks = h.blocks;
}
Change-IsTask (by_append app app_t rest t u k e) h =
    subst IsTask (append_task_lem app app_t rest t u e) (append-IsTask app t k h)

-- A task made by the constructor and changed any number of times.
pub data Built : Task → Type 0 where
  made : (id type : ℕ) → IsWord id → type < 2 ^ 32 → Built (new_task id type)
  changed : {t u : Task} → Built t → Change t u → Built u

-- A task that is made by the constructor and changed by recording actions, adding successors and
-- predecessors, and the setters holds what its C++ types hold, whatever the uninitialised bits,
-- and its count of basic blocks is the number of basic block actions.
pub Built-IsTask : {t : Task} → Built t → IsTask t
Built-IsTask (made id type h k) = new_task-IsTask id type h k
Built-IsTask (changed b c) = Change-IsTask c (Built-IsTask b)
