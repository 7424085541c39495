-- ===== src/TaskLib/Graph.antt =====
-- common/taskLib/TaskGraph.hpp and TaskGraph.cpp: a task graph in a file, and its index.
use syncd_sim.Base.{
  ◌^◌, ℕ, zero, suc, Bool, true, false, List, [], ◌∷◌, ◌++◌, ◌==◌, ltb, length, drop, if◌then◌else◌,
  Option, none, some, Table, empty_table, assign, get_or,
}
use syncd_sim.Base.Effects.{
  out_of_fuel, Exec, Result, pure, require, ok, err, ◌>>=◌, ◌>>◌, assertion,
}
use syncd_sim.TaskLib.Ids.{get_context_id}
use syncd_sim.TaskLib.Record.{Task, contains}
use syncd_sim.TaskLib.Codec.{Zlib, read_contech_task}
use syncd_sim.TaskLib.Info.{BlockMap, read_zeroed, read_word, init_task_graph_info}

-- `TASK_GRAPH_VERSION`
abbrev pub task_graph_version : ℕ
task_graph_version = 4315

-- `nextTask`, an iterator, is the list of the positions that it has before it.
pub record TaskGraph : Type 0 where
  pub input_file : List ℕ
  pub tgi : BlockMap
  pub task_idx : Table ℕ
  pub task_order : List ℕ
  pub next_task : List ℕ
  pub roi_start : ℕ
  pub roi_end : ℕ
  pub num_of_contexts : ℕ

-- What the loop of `initTaskIndex` builds.
pub record Index : Type 0 where
  pub task_idx : Table ℕ
  pub task_order : List ℕ
  pub uniq_contexts : List ℕ

-- `uniqContexts.insert(cid)` for a set
unfoldable pub insert_context : ℕ → List ℕ → List ℕ
insert_context cid cs = if contains cid cs then cs else cid ∷ cs

unfoldable pub add_entry : ℕ → ℕ → Index → Index
add_entry tid pos ix = record {
  task_idx = assign ix.task_idx tid pos;
  task_order = ix.task_order ++ (pos ∷ []);
  uniq_contexts = insert_context (get_context_id tid) ix.uniq_contexts;
}

abbrev pub is_none : Option ℕ → Bool
is_none none = true
is_none (some pos) = false

-- The loop over the entries of the index, which stands at `off` behind every task.
unfoldable pub read_entries : ℕ → ℕ → Index → Exec (List ℕ) Index
read_entries off zero ix = pure ix
read_entries off (suc n) ix = do
  tid ← read_zeroed 8
  pos ← read_word 8
  require (ltb pos off) assertion
  require (is_none (ix.task_idx tid)) assertion
  read_entries off n (add_entry tid pos ix)

abbrev pub no_entries : Index
no_entries = record { task_idx = empty_table; task_order = []; uniq_contexts = [] }

-- The rounds of the loop, whose counter has 32 bits: a count that it cannot reach keeps the loop
-- going when it wraps.
abbrev pub rounds : ℕ → ℕ
rounds task_count = if ltb task_count (2 ^ 32) then task_count else 2 ^ 32

-- `initTaskIndex`. Where the counter would wrap, the model stops.
unfoldable pub init_task_index : ℕ → Exec (List ℕ) Index
init_task_index off = do
  task_count ← read_word 8
  ix ← read_entries off (rounds task_count) no_entries
  require (ltb task_count (2 ^ 32)) out_of_fuel
  pure ix

-- The part of the file before the tasks. The constructor stops at a short read of the version and
-- leaves its members unset; another version than its own only makes it print a warning.
pub record Header : Type 0 where
  pub index_offset : ℕ
  pub roi_start : ℕ
  pub roi_end : ℕ
  pub tgi : BlockMap

unfoldable pub read_header : Exec (List ℕ) Header
read_header = do
  version ← read_word 4
  index_offset ← read_zeroed 8
  roi_start ← read_zeroed 8
  roi_end ← read_zeroed 8
  tgi ← init_task_graph_info
  pure (record { index_offset = index_offset; roi_start = roi_start; roi_end = roi_end; tgi = tgi })

abbrev pub graph_of : List ℕ → Header → Index → TaskGraph
graph_of file h ix = record {
  input_file = file;
  tgi = h.tgi;
  task_idx = ix.task_idx;
  task_order = ix.task_order;
  next_task = ix.task_order;
  roi_start = h.roi_start;
  roi_end = h.roi_end;
  num_of_contexts = length ix.uniq_contexts;
}

unfoldable pub with_index : List ℕ → Header → Result (Index × List ℕ) → Result TaskGraph
with_index file h (ok (ix, rest)) = ok (graph_of file h ix)
with_index file h (err e) = err e

unfoldable pub with_header : List ℕ → Result (Header × List ℕ) → Result TaskGraph
with_header file (ok (h, rest)) =
    with_index file h (init_task_index h.index_offset (drop h.index_offset file))
with_header file (err e) = err e

-- `TaskGraph(FILE* f)`
unfoldable pub open_task_graph : List ℕ → Result TaskGraph
open_task_graph file = with_header file (read_header file)

-- `initFromFile`, for what `fopen` gives
unfoldable pub init_from_file : Option (List ℕ) → Result (Option TaskGraph)
init_from_file none = ok none
init_from_file (some file) = elim (open_task_graph file) [ ok g ↦ ok (some g) | err e ↦ err e ]

unfoldable pub returned : Result (Option Task × List ℕ) → Result (Option Task)
returned (ok (t, rest)) = ok t
returned (err e) = err e

module _ (z : Zlib) where
  -- `fseek(inputFile, pos, SEEK_SET)` and the read of a task
  unfoldable pub read_task_at : TaskGraph → ℕ → Result (Option Task)
  read_task_at g pos = returned (read_contech_task z (drop pos g.input_file))

  -- The task at the position that the index has, or a null pointer.
  unfoldable pub task_found : TaskGraph → Option ℕ → Result (Option Task)
  task_found g none = ok none
  task_found g (some pos) = read_task_at g pos

  -- `getTaskById`
  unfoldable pub get_task_by_id : TaskGraph → ℕ → Result (Option Task)
  get_task_by_id g id = task_found g (g.task_idx id)

  -- `getNextTask`
  unfoldable pub get_next_task : TaskGraph → Result (Option Task) × TaskGraph
  get_next_task g = elim g.next_task [
    | [] ↦ (ok none, g)
    | pos ∷ rest ↦ (read_task_at g pos, record g { next_task = rest })
  ]

-- `resetTaskOrder`
unfoldable pub reset_task_order : TaskGraph → TaskGraph
reset_task_order g = record g { next_task = g.task_order }

unfoldable pub seek_position : ℕ → List ℕ → List ℕ
seek_position pos [] = []
seek_position pos (p ∷ ps) = if p == pos then p ∷ ps else seek_position pos ps

-- `setTaskOrderCurrent`. `taskIdx[tid]` gives a number with no entry the position 0.
unfoldable pub set_task_order_current : ℕ → TaskGraph → TaskGraph
set_task_order_current tid g =
    let pos = get_or (g.task_idx tid) 0 in
    record g { task_idx = assign g.task_idx tid pos; next_task = seek_position pos g.next_task }
