-- ===== src/Middle/Reopened.antt =====
-- The file that backgroundTaskWriter of middle/taskWrite.cpp completes, opened by
-- common/taskLib/TaskGraph.cpp.
use syncd_sim.Base.{
  ℕ, ◌+◌, ◌^◌, ◌<◌, ◌≤◌, List, [], ◌∷◌, ◌++◌, ◌==◌, length, length-append, append_assoc, append_nil,
  drop, drop-append, if◌then◌else◌, Option, none, some, ◌≡◌, refl, sym, ap, ◌∙◌, arith, All,
  All-append, inl, inr, ==_iff, Option-cases, subst,
}
use syncd_sim.Base.Effects.{ok, ok_injective}
use syncd_sim.Base.Effects.Results.{>>=-eq-ok, check-eq-ok}
use syncd_sim.Base.Effects.Steps.{Runs}
use syncd_sim.TaskLib.Bytes.{to_bytes, of_bytes, length-to_bytes}
use syncd_sim.TaskLib.Record.{Task}
use syncd_sim.TaskLib.Codec.{Zlib, Restores, read_contech_task}
use syncd_sim.TaskLib.Info.{BlockMap, write_task_graph_info}
use syncd_sim.TaskLib.InfoTrip.{Ascends}
use syncd_sim.TaskLib.Graph.{
  TaskGraph, Header, read_header, open_task_graph, with_header, with_index, get_task_by_id,
  task_found, read_task_at, returned, task_graph_version, graph_of, init_task_index,
}
use syncd_sim.Middle.Writer.{
  Written, find, patch, put_entries, last_tid, finish, background_task_writer, begin_file,
}
use syncd_sim.Middle.Places.{pos_of}
use syncd_sim.Middle.Sorted.{sort_index_le, Unique, sort_index_complete}
use syncd_sim.Middle.Stored.{
  IsStorable, IsStored, IsWritten, IsWritten-start, find_task, find_task-IsWord, concat,
  write_chunks-IsWritten,
}
use syncd_sim.Middle.Indexed.{Fits, All-find, Runs-init_task_index}
use syncd_sim.Middle.Layout.{
  drop_past, patch_lem, version, numbers, length-numbers, length_framed, graph_file,
  Runs-read_header,
}

-- The tasks are written, and `es` is the index of them.
module _ (z : Zlib) (info : BlockMap) (ts : List Task) (w : Written)
    (h : IsWritten z (begin_file info) ts w) (es : List (ℕ × ℕ)) (unique : Unique es)
    (same : (k : ℕ) → find k es ≡ pos_of k w.write_task_map)
    (all : length es ≡ length w.write_task_map) (few_tasks : length es < 2 ^ 32)
    (roi_start roi_end : ℕ) where
  abbrev tail_of : List ℕ
  tail_of = h.grown.0

  abbrev index_bytes : List ℕ
  index_bytes = to_bytes 8 (length es) ++ put_entries es

  abbrev new_numbers : List ℕ
  new_numbers = numbers (length w.out) roi_start roi_end

  abbrev complete : List ℕ
  complete = graph_file (length w.out) roi_start roi_end info (tail_of ++ index_bytes)

  out_parts :
      w.out ++ index_bytes
      ≡ version ++ (numbers 0 0 0 ++ (write_task_graph_info info ++ (tail_of ++ index_bytes)))
  unfolding begin_file
  out_parts = rw (h.grown.1) (simp append_assoc)

  complete_lem : patch new_numbers (w.out ++ index_bytes) ≡ complete
  complete_lem =
      ap (patch new_numbers) out_parts
      ∙ patch_lem version (numbers 0 0 0) _ new_numbers (length-to_bytes 4 task_graph_version)
          (length-numbers 0 0 0 ∙ sym (length-numbers (length w.out) roi_start roi_end))

  -- Behind the basic blocks the file is as it was before the three numbers were written.
  drop-complete :
      (p : ℕ) → length (begin_file info) ≤ p → drop p complete ≡ drop p (w.out ++ index_bytes)
  drop-complete p behind =
      ap (drop p) new_front
      ∙ drop_past (front new_numbers) (front (numbers 0 0 0)) (tail_of ++ index_bytes) p same_length
          (omega (arith, behind, same_length, ap length begun))
      ∙ ap (drop p) (sym old_front)
    where
      front : List ℕ → List ℕ
      front ns = version ++ (ns ++ write_task_graph_info info)

      new_front : complete ≡ front new_numbers ++ (tail_of ++ index_bytes)
      new_front = simp append_assoc

      old_front : w.out ++ index_bytes ≡ front (numbers 0 0 0) ++ (tail_of ++ index_bytes)
      old_front = out_parts ∙ simp append_assoc

      begun : begin_file info ≡ front (numbers 0 0 0)
      begun = unfold begin_file in append_assoc version (numbers 0 0 0) (write_task_graph_info info)

      same_length : length (front new_numbers) ≡ length (front (numbers 0 0 0))
      same_length = simp (length-append, length-to_bytes)

  -- Reading at the position of an indexed task gives the task.
  At-complete :
      (g : TaskGraph) (k : ℕ) (p : Option ℕ) (t : Option Task)
      → g.input_file ≡ complete
      → IsStored z (length (begin_file info)) w.out p t
      → task_found z g p ≡ ok t
  unfolding task_found read_task_at
  At-complete g k none none file s = refl
  At-complete g k none (some t) file s = absurd s
  At-complete g k (some p) none file s = absurd s
  At-complete g k (some p) (some t) file s =
      ap (λ file. returned (read_contech_task z (drop p file))) file
      ∙ ap (λ bytes. returned (read_contech_task z bytes)) (drop-complete p s.after_base)
      ∙ s.reads index_bytes

  Fits-es : All (IsStorable z) ts → length w.out < 2 ^ 64 → Fits (length w.out) es
  Fits-es storable small = All-find _ es unique λ k p e. fits k p (sym (same k) ∙ e)
    where
      fits :
          (k p : ℕ)
          → pos_of k w.write_task_map ≡ some p
          → (k < 2 ^ 64) × (p < 2 ^ 64) × (p < length w.out)
      fits k p e = elim (Option-cases (find_task k ts)) [
        | inl absent ↦ let s = rw (e, absent) at (h.stored k) in absurd s
        | inr (t, found) ↦
            let s = rw (e, found) at (h.stored k) in
            (
              find_task-IsWord z k ts t found storable,
              omega (arith, small, s.before_end),
              s.before_end,
            )
      ]

  pub reopened :
      All (IsStorable z) ts
      → Ascends 0 info
      → length info < 2 ^ 31
      → length complete < 2 ^ 64
      → (g : TaskGraph) × (open_task_graph complete ≡ ok g)
        × ((id : ℕ) → get_task_by_id z g id ≡ ok (find_task id ts))
        × (g.tgi ≡ info)
        × (length g.task_order ≡ length ts)
  unfolding open_task_graph with_header with_index get_task_by_id
  reopened storable ascends few small =
      let (ix, run, read) =
        Runs-init_task_index (length w.out) es [] (Fits-es storable out_small) unique few_tasks in
      let g = graph_of complete header ix in
      (
        g,
        ap (with_header complete) header_run.result
            ∙ ap (λ bytes. with_index complete header (init_task_index (length w.out) bytes))
                at_index
            ∙ ap (with_index complete header) run.result,
        λ id.
            At-complete g id (ix.task_idx id) (find_task id ts) refl
              (rw (read.lookups id ∙ same id) (h.stored id)),
        refl,
        omega (arith, read.order, all, h.size),
      )
    where
      header : Header
      header = record {
        index_offset = length w.out;
        roi_start = of_bytes (to_bytes 8 roi_start);
        roi_end = of_bytes (to_bytes 8 roi_end);
        tgi = info;
      }

      sizes : length complete ≡ length w.out + length index_bytes
      sizes = omega (
        arith,
        ap length out_parts,
        length-append w.out index_bytes,
        length_framed new_numbers (write_task_graph_info info ++ (tail_of ++ index_bytes)),
        length-numbers (length w.out) roi_start roi_end,
        length_framed (numbers 0 0 0) (write_task_graph_info info ++ (tail_of ++ index_bytes)),
        length-numbers 0 0 0,
      )

      out_small : length w.out < 2 ^ 64
      out_small = omega (arith, small, sizes)

      at_index : drop (length w.out) complete ≡ to_bytes 8 (length es) ++ (put_entries es ++ [])
      at_index =
          drop-complete (length w.out)
            (omega (arith, ap length h.grown.1, length-append (begin_file info) tail_of))
          ∙ drop-append w.out index_bytes
          ∙ ap (λ bytes. to_bytes 8 (length es) ++ bytes) (sym (append_nil (put_entries es)))

      header_run : Runs read_header complete header (tail_of ++ index_bytes)
      header_run =
          Runs-read_header (length w.out) roi_start roi_end info (tail_of ++ index_bytes) ascends
            few out_small

All-concat :
    (z : Zlib) (chunks : List (List Task))
    → All (All (IsStorable z)) chunks
    → All (IsStorable z) (concat chunks)
unfolding concat
All-concat z [] h = tt
All-concat z (c ∷ cs) h = All-append (IsStorable z) c (concat cs) h.0 (All-concat z cs h.1)

module _ (z : Zlib) (restores : Restores z) (info : BlockMap) (chunks : List (List Task))
    (roi_start roi_end : ℕ) (storable : All (All (IsStorable z)) chunks) where
  -- The end of the region of interest, the last indexed task if there is none.
  abbrev roi_end' : List (ℕ × ℕ) → ℕ
  roi_end' es = if roi_end == 0 then last_tid es else roi_end

  abbrev Reopens : List ℕ → Type 0
  Reopens file =
      (g : TaskGraph) × (open_task_graph file ≡ ok g)
      × ((id : ℕ) → get_task_by_id z g id ≡ ok (find_task id (concat chunks)))
      × (g.tgi ≡ info)
      × (length g.task_order ≡ length (concat chunks))

  -- Let zlib restore what it compresses, the tasks hold what their C++ types hold with vectors of
  -- fewer than 2 ^ 32 elements, each compressed record fit its buffer of 12 bytes more than the
  -- record has, the basic block information be in ascending order, 32-bit and of fewer than 2 ^ 31
  -- blocks, and the background writer complete a file of fewer than 2 ^ 64 bytes that `middle.cpp`
  -- has begun. Then the file opens as a task graph; for every number `getTaskById` returns the
  -- task with that number among the tasks written, whole, and a null pointer if there is none; and
  -- the block information and the number of tasks are those written.
  pub background_task_writer-get_task_by_id :
      (file : List ℕ)
      → Ascends 0 info
      → length info < 2 ^ 31
      → background_task_writer roi_start roi_end z chunks (begin_file info) ≡ ok file
      → length file < 2 ^ 64
      → (g : TaskGraph) × (open_task_graph file ≡ ok g)
        × ((id : ℕ) → get_task_by_id z g id ≡ ok (find_task id (concat chunks)))
        × (g.tgi ≡ info)
        × (length g.task_order ≡ length (concat chunks))
  unfolding background_task_writer finish
  background_task_writer-get_task_by_id file ascends few e small =
      let (w, written, finished) = >>=-eq-ok _ _ e in
      let (es, sorted, e1) = >>=-eq-ok _ _ finished in
      let (_, checked, made) = >>=-eq-ok _ _ e1 in
      let counted = (==_iff _ _).0 (check-eq-ok _ _ checked) in
      let h =
        write_chunks-IsWritten z restores (begin_file info) [] chunks _ w
          (IsWritten-start z (begin_file info)) storable written in
      let most = sort_index_le w.write_task_map es h.keyed sorted in
      let all : length es ≡ length w.write_task_map = omega (arith, counted, most) in
      let (unique, same) = sort_index_complete w.write_task_map es h.keyed sorted all in
      let made_file =
        sym (
          complete_lem z info (concat chunks) w h es unique same all (omega (arith, counted, all))
            roi_start (roi_end' es))
        ∙ ap
            (λ n.
              patch (numbers (length w.out) roi_start (roi_end' es))
                (w.out ++ (to_bytes 8 n ++ put_entries es)))
            all
        ∙ ok_injective made in
      subst Reopens made_file (
        reopened z info (concat chunks) w h es unique same all (omega (arith, counted, all))
          roi_start (roi_end' es) (All-concat z chunks storable) ascends few (rw (made_file) small))
