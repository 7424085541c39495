-- ===== src/Examples/Graphs.antt =====
-- Tasks and task graphs at concrete inputs (common/taskLib and middle).
use syncd_sim.Base.{
  ℕ, ◌+◌, ◌*◌, ◌^◌, ◌<◌, true, List, [], ◌∷◌, ◌++◌, length, drop, none, some, ◌≡◌, refl, arith, All,
}
use syncd_sim.Base.Effects.{Result, ok, err, out_of_fuel, ◌>>=◌}
use syncd_sim.Base.{pos, ◌≢◌}
use syncd_sim.TaskLib.Bytes.{to_bytes}
use syncd_sim.TaskLib.Actions.{is_mem_op, is_memory_action, is_basic_block_action}
use syncd_sim.TaskLib.Blocks.{select, block_mem_ops-all}
use syncd_sim.TaskLib.Views.{
  get_mem_ops, get_memory_actions, get_basic_block_actions, block_mem_ops, block_memory_actions,
  all_of, skip,
}
use syncd_sim.TaskLib.Built.{made, changed, Built-IsTask, by_mem_op, by_successor}
use syncd_sim.Middle.Writer.{
  Written, background_task_writer, begin_file, write_chunks, write_tasks, write_task, wrap, finish,
  sort_index, index_loop, index_task, release_all, release, push, find, erase, count_down,
  put_entries, patch, last_tid,
}
use syncd_sim.Base.Effects.Results
use syncd_sim.Base.Effects.Results.{check, expect}
use syncd_sim.Middle.Stored.{IsStorable, find_task, concat}
use syncd_sim.TaskLib.Graph.{TaskGraph, open_task_graph, get_task_by_id}
use syncd_sim.TaskLib.InfoTrip.{Ascends}
use syncd_sim.TaskLib.EndOfFile.{read_contech_task-short}
use syncd_sim.Middle.Ends.{background_task_writer_ends}
use syncd_sim.Middle.Places.{find-All}
use syncd_sim.Middle.Edges.{edges, occurs, AtMost}
use syncd_sim.Middle.Complete.{IsGraph, finish_completes}
use syncd_sim.Middle.Follows.{IsCounted, IsOrdered, sort_index-IsOrdered}
use syncd_sim.Middle.Writer.{WriteMap, TaskWrapper}
use syncd_sim.Middle.Reopened.{background_task_writer-get_task_by_id}
use syncd_sim.TaskLib.Record.{Task, new_task, record_mem_op_action, add_successor}
use syncd_sim.TaskLib.Codec.{
  compressed, Zlib, Restores, read_contech_task, write_contech_task, count_blocks, put_task,
  put_vector, put_words, record_length_of,
}
use syncd_sim.TaskLib.RoundTrip.{IsTask, IsShort, IsRoomy, read_contech_task-write_contech_task}
use syncd_sim.TaskLib.Info.{BlockMap, write_task_graph_info, put_blocks, put_block_info, put_text}

-- A form of zlib that compresses nothing.
abbrev stored_zlib : Zlib
stored_zlib = record { deflate = λ bytes. bytes; inflate = λ bytes. some bytes }

stored_zlib-Restores : Restores stored_zlib
stored_zlib-Restores = record { restores = λ bytes. refl }

-- A write to the address 64, of eight bytes; a block; and a read.
abbrev first_task : Task
first_task = record {
  task_id = 0;
  start_time = 5;
  end_time = 9;
  actions = (2 * 2 ^ 61 + 3 * 2 ^ 58 + 64) ∷ (6 * 2 ^ 61 + 7) ∷ (1 * 2 ^ 61 + 128) ∷ [];
  successors = 1 ∷ [];
  predecessors = [];
  type = 0;
  sync_type = 0;
  bb_count = 1;
}

abbrev second_task : Task
second_task = record {
  task_id = 1;
  start_time = 9;
  end_time = 12;
  actions = [];
  successors = [];
  predecessors = 0 ∷ [];
  type = 1;
  sync_type = 1;
  bb_count = 0;
}

first-IsTask : IsTask first_task
unfolding count_blocks is_basic_block_action
first-IsTask = omega arith

first-IsShort : IsShort first_task
first-IsShort = omega arith

second-IsTask : IsTask second_task
unfolding count_blocks is_basic_block_action
second-IsTask = omega arith

second-IsShort : IsShort second_task
second-IsShort = omega arith

first-IsRoomy : IsRoomy stored_zlib first_task
unfolding put_task put_vector put_words to_bytes record_length_of
first-IsRoomy = record { room = omega arith }

second-IsRoomy : IsRoomy stored_zlib second_task
unfolding put_task put_vector put_words to_bytes record_length_of
second-IsRoomy = record { room = omega arith }

abbrev output : Result (ℕ × List ℕ) → List ℕ
output (ok (n, out)) = out
output (err e) = []

abbrev one_task : List ℕ
one_task = output (write_contech_task stored_zlib first_task (7 ∷ []))

one_task_written : write_contech_task stored_zlib first_task (7 ∷ []) ≡ ok (92, one_task)
unfolding write_contech_task compressed ◌>>=◌ record_length_of put_task put_vector put_words
    to_bytes
one_task_written = refl

read_contech_task-write_contech_task_example :
    read_contech_task stored_zlib (drop 1 (one_task ++ (3 ∷ []))) ≡ ok (some first_task, 3 ∷ [])
read_contech_task-write_contech_task_example =
    read_contech_task-write_contech_task stored_zlib stored_zlib-Restores first_task first-IsTask
      first-IsShort first-IsRoomy (7 ∷ []) one_task (3 ∷ []) 92 one_task_written

block_mem_ops-all_example :
    (get_mem_ops first_task.actions ≡ select is_mem_op first_task.actions)
    × (all_of block_mem_ops (get_basic_block_actions first_task.actions)
        ≡ get_mem_ops (skip is_basic_block_action first_task.actions))
    × (get_memory_actions first_task.actions ≡ select is_memory_action first_task.actions)
    × (all_of block_memory_actions (get_basic_block_actions first_task.actions)
        ≡ get_memory_actions (skip is_basic_block_action first_task.actions))
block_mem_ops-all_example = block_mem_ops-all first_task.actions

-- A task with a write and a successor.
abbrev small_task : Task
small_task = record (record_mem_op_action 9 true 3 64 (new_task 4 0)) { successors = 5 ∷ [] }

small_added :
    add_successor 5 (record_mem_op_action 9 true 3 64 (new_task 4 0)) ≡ ok (tt, small_task)
unfolding add_successor record_mem_op_action
small_added = refl

Built-IsTask_example : IsTask small_task
Built-IsTask_example = Built-IsTask (
    changed (changed (made 4 0 (omega arith) (omega arith)) (by_mem_op 9 true 3 64 _ (omega arith)))
      (by_successor 5 _ small_task (omega arith) small_added))

abbrev some_info : BlockMap
some_info =
    (
      7,
      record {
        flags = 1;
        line_number = 20;
        num_of_mem_ops = 2;
        num_of_ops = 5;
        crit_path_len = 3;
        function_name = 109 ∷ 97 ∷ [];
        file_name = 97 ∷ [];
        calls_function = [];
      },
    )
    ∷ []

abbrev file_of : Result (List ℕ) → List ℕ
file_of (ok out) = out
file_of (err e) = []

abbrev two_tasks : List (List Task)
two_tasks = (second_task ∷ []) ∷ ((first_task ∷ []) ∷ [])

abbrev graph_file : List ℕ
graph_file = file_of (background_task_writer 0 0 stored_zlib two_tasks (begin_file some_info))

graph_written :
    (background_task_writer 0 0 stored_zlib two_tasks (begin_file some_info) ≡ ok graph_file)
    × (length graph_file ≡ 271)
unfolding background_task_writer write_chunks write_tasks write_task write_contech_task compressed
    ◌>>=◌ wrap record_length_of put_task put_vector put_words to_bytes finish sort_index index_loop
    index_task release_all release push find erase count_down put_entries patch last_tid
    Results.◌>>=◌ check expect begin_file write_task_graph_info put_blocks put_block_info put_text
graph_written = (refl, refl)

storable : All (All (IsStorable stored_zlib)) two_tasks
storable = (
  (record { task = second-IsTask; short = second-IsShort; roomy = second-IsRoomy }, tt),
  ((record { task = first-IsTask; short = first-IsShort; roomy = first-IsRoomy }, tt), tt),
)

info-Ascends : Ascends 0 some_info
info-Ascends = (
  omega arith,
  omega arith,
  record {
    flags = omega arith;
    line = omega arith;
    mem_ops = omega arith;
    ops = omega arith;
    path = omega arith;
    function = record { short = omega arith; chars = (refl, (refl, tt)) };
    file = record { short = omega arith; chars = (refl, tt) };
    calls = record { short = omega arith; chars = tt };
  },
  tt,
)

graph_small : length graph_file < 2 ^ 64
graph_small = omega (arith, graph_written.1)

background_task_writer-get_task_by_id_example :
    (g : TaskGraph) × (open_task_graph graph_file ≡ ok g)
    × ((id : ℕ) → get_task_by_id stored_zlib g id ≡ ok (find_task id (concat two_tasks)))
    × (g.tgi ≡ some_info)
    × (length g.task_order ≡ length (concat two_tasks))
background_task_writer-get_task_by_id_example =
    background_task_writer-get_task_by_id stored_zlib stored_zlib-Restores some_info two_tasks 0 0
      storable graph_file info-Ascends (omega arith) graph_written.0 graph_small

read_contech_task-short_example : read_contech_task stored_zlib (1 ∷ 2 ∷ []) ≡ ok (none, [])
read_contech_task-short_example = read_contech_task-short stored_zlib (1 ∷ 2 ∷ []) (omega arith)

background_task_writer_ends_example :
    background_task_writer 0 1 stored_zlib two_tasks (begin_file some_info) ≢ err out_of_fuel
background_task_writer_ends_example =
    background_task_writer_ends stored_zlib 0 1 two_tasks (begin_file some_info)

-- Task 2 follows task 1, which follows task 0.
abbrev waiting : ℕ → ℕ → List ℕ → TaskWrapper
waiting id n succs = record {
  self = id;
  p = pos n;
  s = succs;
  start = 10 + id;
  write_pos = 100 * id;
  t = 0;
}

abbrev three_waiting : WriteMap
three_waiting =
    (2, waiting 2 2 []) ∷ ((0, waiting 0 0 (1 ∷ 2 ∷ [])) ∷ ((1, waiting 1 1 (2 ∷ [])) ∷ []))

three-IsCounted : IsCounted three_waiting
unfolding edges occurs
three-IsCounted = record {
  keyed = (refl, (refl, (refl, tt)));
  waits = record {
    each = λ k w h.
        find-All (λ k w. AtMost (edges k three_waiting) w.p) k three_waiting w
          (omega arith, (omega arith, (omega arith, tt))) h;
  };
  root = refl;
}

three_sorted : sort_index three_waiting ≡ ok ((0, 0) ∷ (1, 100) ∷ (2, 200) ∷ [])
unfolding sort_index index_loop index_task release_all release push find erase count_down
    Results.◌>>=◌ check expect
three_sorted = refl

sort_index-IsOrdered_example : IsOrdered three_waiting ((0, 0) ∷ (1, 100) ∷ (2, 200) ∷ [])
sort_index-IsOrdered_example =
    sort_index-IsOrdered three_waiting ((0, 0) ∷ (1, 100) ∷ (2, 200) ∷ []) three-IsCounted
      three_sorted

-- What the writer has before it sorts these three.
abbrev three_written : Written
three_written = record { out = 1 ∷ 2 ∷ 3 ∷ 4 ∷ []; write_task_map = three_waiting }

three-IsGraph : IsGraph (λ k. k) three_waiting
unfolding find edges occurs
three-IsGraph = record {
  distinct = (refl, (refl, (refl, tt)));
  keyed = (refl, (refl, (refl, tt)));
  counts = λ k w h.
      find-All (λ k w. w.p ≡ pos (edges k three_waiting)) k three_waiting w
        (refl, (refl, (refl, tt))) h;
  closed = λ k h. ground arith;
  rises = λ k w s h.
      find-All (λ k w. occurs s w.s ≢ 0 → k < s) k three_waiting w
        ((λ o. ground arith), ((λ o. ground arith), ((λ o. ground arith), tt))) h;
  root = λ h. cc;
  free = refl;
  joined = λ k w h.
      find-All (λ k w. edges k three_waiting ≡ 0 → k ≡ 0) k three_waiting w
        ((λ e. cc), ((λ e. refl), ((λ e. cc), tt))) h;
}

finish_completes_example :
    (es : List (ℕ × ℕ)) × (file : List ℕ) × (sort_index three_waiting ≡ ok es)
    × (length es ≡ 3)
    × (finish 0 1 three_written ≡ ok file)
finish_completes_example = finish_completes (λ k. k) 0 1 three_written three-IsGraph (omega arith)
