-- ===== src/Middle/Writer.antt =====
-- middle/taskWrite.cpp, backgroundTaskWriter: the thread that writes tasks as they come, and the
-- index of the file in an order in which no task comes before its predecessors.
use syncd_sim.Base.{
  ◌%◌, ◌^◌, ℕ, zero, suc, ◌+◌, Bool, true, false, List, [], ◌∷◌, ◌++◌, ◌==◌, ltb, length, take,
  drop, if◌then◌else◌, Option, none, some, ℤ, pos, pred_ℤ, is_zero_ℤ,
}
use syncd_sim.Base.Effects.{Result, ok, err, stray_memory, assertion, out_of_fuel}
use syncd_sim.Base.Effects.Results.{◌>>=◌, ◌>>◌, check, expect}
use syncd_sim.TaskLib.Bytes.{to_bytes}
use syncd_sim.TaskLib.Record.{Task}
use syncd_sim.TaskLib.Info.{BlockMap, write_task_graph_info}
use syncd_sim.TaskLib.Graph.{task_graph_version}
use syncd_sim.TaskLib.Codec.{Zlib, write_contech_task}

-- `struct TaskWrapper`
pub record TaskWrapper : Type 0 where
  pub self : ℕ
  pub p : ℤ
  pub s : List ℕ
  pub start : ℕ
  pub write_pos : ℕ
  pub t : ℕ

-- `map<TaskId, TaskWrapper> writeTaskMap`, which is never walked over.
abbrev pub WriteMap : Type 0
WriteMap = List (ℕ × TaskWrapper)

module _ {ℓ} {V : Type ℓ} where
  -- `m.find(k)`
  unfoldable pub find : ℕ → List (ℕ × V) → Option V
  find k [] = none
  find k ((j, v) ∷ m) = if j == k then some v else find k m

  -- `m.erase(k)`
  unfoldable pub erase : ℕ → List (ℕ × V) → List (ℕ × V)
  erase k [] = []
  erase k ((j, v) ∷ m) = if j == k then erase k m else (j, v) ∷ erase k m

-- `suTW.p--` for the entry of `k`
unfoldable pub count_down : ℕ → WriteMap → WriteMap
count_down k [] = []
count_down k ((j, w) ∷ m) =
    if j == k then (j, record w { p = pred_ℤ w.p }) ∷ m else (j, w) ∷ count_down k m

unfoldable pub wrap : Task → ℕ → TaskWrapper
wrap t at = record {
  self = t.task_id;
  p = pos (length t.predecessors);
  s = t.successors;
  start = t.start_time;
  write_pos = at;
  t = t.type;
}

abbrev pub is_absent : Option TaskWrapper → Bool
is_absent none = true
is_absent (some w) = false

pub record Written : Type 0 where
  pub out : List ℕ
  pub write_task_map : WriteMap

module _ (z : Zlib) where
  -- One round of the loop over `writeTaskQueue`.
  unfoldable pub write_task : Task → Written → Result Written
  write_task t w = do
    check (is_absent (find t.task_id w.write_task_map)) assertion
    (_, out) ← write_contech_task z t w.out
    ok (record {
      out = out;
      write_task_map = w.write_task_map ++ ((t.task_id, wrap t (length w.out)) ∷ []);
    })

  unfoldable pub write_tasks : List Task → Written → Result Written
  write_tasks [] w = ok w
  write_tasks (t ∷ ts) w = do w' ← write_task t w; write_tasks ts w'

  -- The outer loop, which takes what the foreground has queued, a chunk at a time.
  unfoldable pub write_chunks : List (List Task) → Written → Result Written
  write_chunks [] w = ok w
  write_chunks (c ∷ cs) w = do w' ← write_tasks c w; write_chunks cs w'

-- An element of `taskSort`: a start time, and the number and the position of a task.
abbrev pub Ready : Type 0
Ready = ℕ × (ℕ × ℕ)

abbrev pub ready : TaskWrapper → Ready
ready w = (w.start, (w.self, w.write_pos))

-- `taskSort.push(e)`; the first of the list is the top, the oldest by `first_compare`. The
-- library leaves open which of several oldest it takes; here it is the one that came first.
unfoldable pub push : Ready → List Ready → List Ready
push e [] = e ∷ []
push e (f ∷ q) = if ltb e.0 f.0 then e ∷ (f ∷ q) else f ∷ push e q

pub record Sorting : Type 0 where
  pub write_task_map : WriteMap
  pub task_sort : List Ready

-- One successor: its count goes down, and at 0 it is ready.
unfoldable pub release : ℕ → Sorting → Result Sorting
release succ st = do
  w ← expect (find succ st.write_task_map) stray_memory
  ok (record {
    write_task_map = count_down succ st.write_task_map;
    task_sort = if is_zero_ℤ (pred_ℤ w.p) then push (ready w) st.task_sort else st.task_sort;
  })

-- The loop over the successors of an indexed task.
unfoldable pub release_all : List ℕ → Sorting → Result Sorting
release_all [] st = ok st
release_all (succ ∷ succs) st = do st' ← release succ st; release_all succs st'

-- A round of the sorting, for the task that was on top.
unfoldable pub index_task : ℕ → Sorting → Result Sorting
index_task tid st = do
  tw ← expect (find tid st.write_task_map) assertion
  check (tid == tw.self) assertion
  st' ← release_all tw.s st
  ok (record st' { write_task_map = erase tid st'.write_task_map })

-- The `while (!taskSort.empty())` loop: the entries of the index. An entry is taken out of the map
-- in each round that does not stop.
unfoldable pub index_loop : ℕ → List (ℕ × ℕ) → WriteMap → List Ready → Result (List (ℕ × ℕ))
index_loop fuel entries m [] = ok entries
index_loop zero entries m (e ∷ q) = err out_of_fuel
index_loop (suc fuel) entries m ((start, (tid, offset)) ∷ q) = do
  st ← index_task tid (record { write_task_map = m; task_sort = q })
  index_loop fuel (entries ++ ((tid, offset) ∷ [])) st.write_task_map st.task_sort

-- The index starts from task 0, which has to be in the map.
unfoldable pub sort_index : WriteMap → Result (List (ℕ × ℕ))
sort_index m = do
  tw ← expect (find 0 m) stray_memory
  index_loop (suc (length m)) [] m (ready tw ∷ [])

unfoldable pub put_entries : List (ℕ × ℕ) → List ℕ
put_entries [] = []
put_entries ((tid, offset) ∷ es) = to_bytes 8 tid ++ (to_bytes 8 offset ++ put_entries es)

-- `lastTid`
unfoldable pub last_tid : List (ℕ × ℕ) → ℕ
last_tid [] = 0
last_tid ((tid, offset) ∷ []) = tid
last_tid (e ∷ (f ∷ es)) = last_tid (f ∷ es)

-- `fseek(out, 4, SEEK_SET)` and the three writes there
unfoldable pub patch : List ℕ → List ℕ → List ℕ
patch bytes out = take 4 out ++ (bytes ++ drop (4 + length bytes) out)

module _ (roi_start roi_end : ℕ) where
  -- What is written when all tasks are. `taskWriteCount` is the size of the map: each write has
  -- put an entry there.
  unfoldable pub finish : Written → Result (List ℕ)
  finish w = do
    entries ← sort_index w.write_task_map
    check (length entries % 2 ^ 32 == length w.write_task_map) assertion
    ok (
        patch
          (to_bytes 8 (length w.out)
            ++ (to_bytes 8 roi_start
                ++ to_bytes 8 (if roi_end == 0 then last_tid entries else roi_end)))
          (w.out ++ (to_bytes 8 (length w.write_task_map) ++ put_entries entries)))

  -- `backgroundTaskWriter` on a file that the foreground has begun; the result is the file.
  unfoldable pub background_task_writer : Zlib → List (List Task) → List ℕ → Result (List ℕ)
  background_task_writer z chunks out = do
    w ← write_chunks z chunks (record { out = out; write_task_map = [] })
    finish w

-- What middle/middle.cpp writes first: the version, and room for three numbers.
abbrev pub file_start : List ℕ
file_start = to_bytes 4 task_graph_version ++ (to_bytes 8 0 ++ (to_bytes 8 0 ++ to_bytes 8 0))

-- The file once `tgi->writeTaskGraphInfo(out)` there has added what is known of the basic blocks.
unfoldable pub begin_file : BlockMap → List ℕ
begin_file info = file_start ++ write_task_graph_info info
