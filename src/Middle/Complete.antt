-- ===== src/Middle/Complete.antt =====
-- The sorting of middle/taskWrite.cpp indexes every task of a graph without cycles in which only
-- task 0 waits for nothing.
use syncd_sim.Base.{
  ◌%◌, ◌^◌, ℕ, zero, suc, ◌+◌, ◌<◌, true, false, List, [], ◌∷◌, ◌++◌, ◌==◌, length, length-append,
  ◌⊎◌, if◌then◌else◌, none, some, ◌≡◌, ◌≢◌, refl, sym, ap, ◌∙◌, arith, Bool-cases, inl, inr, ==_iff,
  Option-cases, subst, pos,
}
use syncd_sim.Base.Effects.{ok}
use syncd_sim.Base.Effects.Results.{◌>>=◌, check, expect}
use syncd_sim.Middle.Writer.{
  TaskWrapper, WriteMap, Ready, ready, Sorting, find, erase, index_task, index_loop, sort_index,
}
use syncd_sim.Middle.Places.{Keyed, Keyed-find, Keyed-erase}
use syncd_sim.Middle.Edges.{occurs, edges, find-erase}
use syncd_sim.Middle.Distinct.{
  Distinct, Distinct-erase, find-erase_self, find-erase_other, edges-erase_eq, length-erase_eq,
  queued, edges-from,
}
use syncd_sim.Middle.Writer.{Written, finish, patch, put_entries, last_tid}
use syncd_sim.TaskLib.Bytes.{to_bytes}
use syncd_sim.Middle.Running.{
  due, Rises, IsRunning, IsRunning-bound, bound, IsReleased, release_all_completes,
}

module _ (rank : ℕ → ℕ) where
  abbrev IsWaiting : WriteMap → List Ready → Type 0
  IsWaiting m q = IsRunning rank (λ k. edges k m) m q

  -- A task that waits in the queue is in the map, and no edge leads to it.
  module _ (m : WriteMap) (q : List Ready) (start tid offset : ℕ)
      (h : IsWaiting m ((start, (tid, offset)) ∷ q)) where
    one_waits : queued tid ((start, (tid, offset)) ∷ q) ≡ suc (queued tid q)
    unfolding queued
    one_waits = ground arith

    top : (w : TaskWrapper) × (find tid m ≡ some w) × (edges tid m ≡ 0) × (queued tid q ≡ 0)
    unfolding due
    top = elim (Option-cases (find tid m)) [
      | inl e ↦ absurd (omega (arith, one_waits, h.queue tid ∙ ap (due (edges tid m)) e))
      | inr (w, e) ↦
          let once : suc (queued tid q) ≡ (if edges tid m == 0 then 1 else 0) =
            sym one_waits ∙ h.queue tid ∙ ap (due (edges tid m)) e in
          (w, e, ground (arith, once), ground (arith, once))
    ]

    others : (k : ℕ) → (tid == k) ≡ false → queued k q ≡ due (edges k m) (find k m)
    unfolding queued
    others k ne = ground (arith, h.queue k)

    taken :
        (w : TaskWrapper)
        → find tid m ≡ some w
        → edges tid m ≡ 0
        → queued tid q ≡ 0
        → IsReleased rank tid w.s (record { write_task_map = m; task_sort = q })
    unfolding due
    taken w at free alone = record {
      distinct = Distinct-erase tid m h.distinct;
      keyed = Keyed-erase tid m h.keyed;
      counts = λ k v e. h.counts k v (find-erase k tid m v e) ∙ ap pos (sym (same k));
      closed = λ k e. elim (Bool-cases (tid == k)) [
        | inl is ↦ same k ∙ subst (λ k. edges k m ≡ 0) ((==_iff tid k).0 is) free
        | inr other ↦ same k ∙ h.closed k (sym (find-erase_other k tid m other) ∙ e)
      ];
      rises = λ k v s e o. h.rises k v s (find-erase k tid m v e) o;
      queue = λ k. elim (Bool-cases (tid == k)) [
        | inl is ↦
            subst (λ k. queued k q ≡ due (bound (erase tid m) w.s k) (find k (erase tid m)))
              ((==_iff tid k).0 is) (alone ∙ rw (find-erase_self tid m) refl)
        | inr other ↦
            others k other
            ∙ ap (λ n. due n (find k m)) (sym (same k))
            ∙ ap (due (bound (erase tid m) w.s k)) (sym (find-erase_other k tid m other))
      ];
    }
      where
        same : (k : ℕ) → bound (erase tid m) w.s k ≡ edges k m
        same k = edges-erase_eq k tid m w h.distinct at

    index_task_completes :
        (st : Sorting) × (index_task tid (record { write_task_map = m; task_sort = q }) ≡ ok st)
        × IsWaiting st.write_task_map st.task_sort
        × (suc (length st.write_task_map) ≡ length m)
    unfolding index_task expect check ◌>>=◌
    index_task_completes =
        let (w, at, free, alone) = top in
        let (st, e, k, l) = release_all_completes rank tid w.s _ (taken w at free alone) in
        let own : (tid == w.self) ≡ true =
          (==_iff tid w.self).1 (sym (Keyed-find tid m w h.keyed at)) in
        (
          record st { write_task_map = erase tid st.write_task_map },
          rw (at, own, e) refl,
          IsRunning-bound rank (bound (erase tid st.write_task_map) [])
              (λ k. edges k (erase tid st.write_task_map)) (erase tid st.write_task_map)
              st.task_sort (λ k. unfold occurs in omega arith) k,
          ap suc l ∙ length-erase_eq tid m w h.distinct at,
        )

  -- While a task is left, one waits in the queue: a task of the least rank has no edge to it.
  nothing_below :
      (m : WriteMap) → IsWaiting m [] → (n k : ℕ) (w : TaskWrapper) → rank k < n → find k m ≢ some w
  unfolding due queued
  nothing_below m h zero k w less at = absurd (omega arith)
  nothing_below m h (suc n) k w less at =
      let held : edges k m ≢ 0 =
        λ z. let none_due = h.queue k ∙ ap (due (edges k m)) at in absurd (ground arith) in
      let (j, v, there, o) = edges-from k m h.distinct held in
      nothing_below m h n j v (omega (arith, h.rises j v k there o)) there

  none_left : (m : WriteMap) → IsWaiting m [] → length m ≡ 0
  unfolding find
  none_left [] h = refl
  none_left ((k, w) ∷ m) h =
      absurd (nothing_below ((k, w) ∷ m) h (suc (rank k)) k w (omega arith) (ground arith))

  index_loop_completes :
      (fuel : ℕ) (entries : List (ℕ × ℕ)) (m : WriteMap) (q : List Ready)
      → length m < fuel
      → IsWaiting m q
      → (es : List (ℕ × ℕ)) × (index_loop fuel entries m q ≡ ok es)
        × (length es ≡ length entries + length m)
  unfolding index_loop ◌>>=◌
  index_loop_completes zero entries m q less h = absurd (omega arith)
  index_loop_completes (suc fuel) entries m [] less h =
      (entries, refl, omega (arith, none_left m h))
  index_loop_completes (suc fuel) entries m ((start, (tid, offset)) ∷ q) less h =
      let (st, e, k, l) = index_task_completes m q start tid offset h in
      let (es, e', l') =
        index_loop_completes fuel (entries ++ ((tid, offset) ∷ [])) st.write_task_map st.task_sort
          (omega (arith, l)) k in
      (es, rw e e', omega (arith, l, l', length-append entries ((tid, offset) ∷ [])))

-- The map is a graph without cycles, whose tasks wait for exactly the edges to them, and in which
-- only task 0 waits for nothing.
pub record IsGraph (rank : ℕ → ℕ) (m : WriteMap) : Type 0 where
  pub distinct : Distinct m
  pub keyed : Keyed m
  pub counts : (k : ℕ) (w : TaskWrapper) → find k m ≡ some w → w.p ≡ pos (edges k m)
  pub closed : (k : ℕ) → find k m ≡ none → edges k m ≡ 0
  pub rises : Rises rank m
  pub root : find 0 m ≢ none
  pub free : edges 0 m ≡ 0
  pub joined : (k : ℕ) (w : TaskWrapper) → find k m ≡ some w → edges k m ≡ 0 → k ≡ 0

module _ (rank : ℕ → ℕ) (m : WriteMap) (h : IsGraph rank m) where
  started : (w : TaskWrapper) → find 0 m ≡ some w → IsWaiting rank m (ready w ∷ [])
  unfolding queued due
  started w at = record {
    distinct = h.distinct;
    keyed = h.keyed;
    counts = h.counts;
    closed = h.closed;
    rises = h.rises;
    queue = λ k. elim (Bool-cases (0 == k)) [
      | inl is ↦
          subst (λ k. queued k (ready w ∷ []) ≡ due (edges k m) (find k m)) ((==_iff 0 k).0 is)
            first
      | inr other ↦ elsewhere k other (Option-cases (find k m))
    ];
  }
    where
      own : w.self ≡ 0
      own = Keyed-find 0 m w h.keyed at

      first : queued 0 (ready w ∷ []) ≡ due (edges 0 m) (find 0 m)
      first = rw (at, h.free, own) refl

      elsewhere :
          (k : ℕ)
          → (0 == k) ≡ false
          → (find k m ≡ none) ⊎ ((v : TaskWrapper) × (find k m ≡ some v))
          → queued k (ready w ∷ []) ≡ due (edges k m) (find k m)
      elsewhere k other (inl e) = rw (e, own) (ground (arith, other))
      elsewhere k other (inr (v, e)) =
          let held : edges k m ≢ 0 = λ z. let root = h.joined k v e z in ground (arith, other) in
          rw (e, own) (ground (arith, other, held))

  sort_index_completes : (es : List (ℕ × ℕ)) × (sort_index m ≡ ok es) × (length es ≡ length m)
  unfolding sort_index expect ◌>>=◌
  sort_index_completes = elim (Option-cases (find 0 m)) [
    | inl e ↦ absurd (h.root e)
    | inr (w, at) ↦
        let (es, e, l) =
          index_loop_completes rank (suc (length m)) [] m (ready w ∷ []) (omega arith)
            (started w at) in
        (es, rw at e, omega (arith, l))
  ]

-- Let the map of the writer be a graph of fewer than 2 ^ 32 tasks whose entries stand once and
-- under their own numbers, wait for exactly the edges to them, and have their successors in the
-- map; let a rank rise along every edge, so that there is no cycle; and let task 0 be there and be
-- the only one that waits for nothing. Then the sorting completes, every task gets its entry, and
-- the writer completes the file: the assertion on the number of indexed tasks holds.
pub finish_completes :
    (rank : ℕ → ℕ) (roi_start roi_end : ℕ) (w : Written)
    → IsGraph rank w.write_task_map
    → length w.write_task_map < 2 ^ 32
    → (es : List (ℕ × ℕ)) × (file : List ℕ) × (sort_index w.write_task_map ≡ ok es)
      × (length es ≡ length w.write_task_map)
      × (finish roi_start roi_end w ≡ ok file)
unfolding finish ◌>>=◌ check
finish_completes rank roi_start roi_end w h few =
    let (es, e, l) = sort_index_completes rank w.write_task_map h in
    let all : (length es % 2 ^ 32 == length w.write_task_map) ≡ true =
      (==_iff _ _).1 (omega (arith, l)) in
    (
      es,
      patch
          (to_bytes 8 (length w.out)
            ++ (to_bytes 8 roi_start ++ to_bytes 8 (if roi_end == 0 then last_tid es else roi_end)))
          (w.out ++ (to_bytes 8 (length w.write_task_map) ++ put_entries es)),
      e,
      l,
      rw (e, all) refl,
    )
