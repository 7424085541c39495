-- ===== src/Middle/Running.antt =====
-- The sorting of middle/taskWrite.cpp as an invariant: each task that is left waits for exactly the
-- edges to it, and stands in the queue if there are none. The loop over successors keeps it.
use syncd_sim.Base.{
  ℕ, zero, suc, ◌+◌, ◌<◌, ◌≤◌, false, List, [], ◌∷◌, ◌==◌, length, if◌then◌else◌, Option, none,
  some, ◌≡◌, ◌≢◌, refl, sym, ap, ◌∙◌, arith, Bool-cases, inl, inr, ==_iff, Option-cases, subst, ℤ,
  pos, pred_ℤ, is_zero_ℤ, some_injective,
}
use syncd_sim.Base.Effects.{ok}
use syncd_sim.Base.Effects.Results.{◌>>=◌, expect}
use syncd_sim.Middle.Writer.{
  TaskWrapper, WriteMap, Ready, ready, Sorting, find, erase, count_down, push, release, release_all,
}
use syncd_sim.Middle.Places.{Keyed, Keyed-find, Keyed-count_down, length-count_down}
use syncd_sim.Middle.Edges.{
  occurs, edges, counted_down, find-count_down_self, find-count_down_other, find-erase,
}
use syncd_sim.Middle.Distinct.{
  Distinct, Distinct-count_down, find-none-count_down, erase-count_down, edges-count_down, queued,
  queued-push,
}

-- How often a task has to wait in the queue: once, if it is there and no edge holds it up.
unfoldable pub due : ℕ → Option TaskWrapper → ℕ
due n none = 0
due n (some w) = if n == 0 then 1 else 0

due-suc : (n : ℕ) (o : Option TaskWrapper) → due (suc n) o ≡ 0
unfolding due
due-suc n none = refl
due-suc n (some w) = ground arith

queued_step :
    (k n : ℕ) (w : TaskWrapper) (p : ℤ) (q : List Ready)
    → p ≡ pos n
    → queued k (if is_zero_ℤ p then push (ready w) q else q)
      ≡ (if n == 0 then (if w.self == k then 1 else 0) else 0) + queued k q
queued_step k zero w p q e = rw e (queued-push k w.start w.self w.write_pos q)
queued_step k (suc n) w p q e = rw e (ground arith)

-- The rank of a task is below those of its successors: there is no cycle.
abbrev pub Rises : (ℕ → ℕ) → WriteMap → Type 0
Rises rank m =
    (k : ℕ) (w : TaskWrapper) (s : ℕ) → find k m ≡ some w → occurs s w.s ≢ 0 → rank k < rank s

-- Each task of the map waits for `bound` tasks, and is in the queue if these are none.
pub record IsRunning (rank bound : ℕ → ℕ) (m : WriteMap) (q : List Ready) : Type 0 where
  pub distinct : Distinct m
  pub keyed : Keyed m
  pub counts : (k : ℕ) (w : TaskWrapper) → find k m ≡ some w → w.p ≡ pos (bound k)
  pub closed : (k : ℕ) → find k m ≡ none → bound k ≡ 0
  pub rises : Rises rank m
  pub queue : (k : ℕ) → queued k q ≡ due (bound k) (find k m)

pub IsRunning-bound :
    (rank b c : ℕ → ℕ) (m : WriteMap) (q : List Ready)
    → ((k : ℕ) → b k ≡ c k)
    → IsRunning rank b m q
    → IsRunning rank c m q
IsRunning-bound rank b c m q same h = record {
  distinct = h.distinct;
  keyed = h.keyed;
  counts = λ k w e. h.counts k w e ∙ ap pos (same k);
  closed = λ k e. sym (same k) ∙ h.closed k e;
  rises = h.rises;
  queue = λ k. h.queue k ∙ ap (λ n. due n (find k m)) (same k);
}

-- The edges that are left, and those to the successors that are still to be released.
abbrev pub bound : WriteMap → List ℕ → ℕ → ℕ
bound m succs k = edges k m + occurs k succs

module _ (rank : ℕ → ℕ) (succ : ℕ) (succs : List ℕ) (m : WriteMap) (q : List Ready)
    (h : IsRunning rank (bound m (succ ∷ succs)) m q) where
  abbrev left : ℕ
  left = bound m succs succ

  one_more : bound m (succ ∷ succs) succ ≡ suc left
  unfolding occurs
  one_more = ground arith

  occurs_le : (k : ℕ) → occurs k succs ≤ occurs k (succ ∷ succs)
  unfolding occurs
  occurs_le k = omega arith

  same_bound : (k : ℕ) → (succ == k) ≡ false → bound m (succ ∷ succs) k ≡ bound m succs k
  unfolding occurs
  same_bound k ne = ground arith

  there : (w : TaskWrapper) × (find succ m ≡ some w)
  there = elim (Option-cases (find succ m)) [
    | inl e ↦ absurd (omega (arith, h.closed succ e, one_more))
    | inr found ↦ found
  ]

  module _ (w : TaskWrapper) (at : find succ m ≡ some w) where
    abbrev q' : List Ready
    q' = if is_zero_ℤ (pred_ℤ w.p) then push (ready w) q else q

    p_left : pred_ℤ w.p ≡ pos left
    p_left = ap pred_ℤ (h.counts succ w at ∙ ap pos one_more)

    own : w.self ≡ succ
    own = Keyed-find succ m w h.keyed at

    queued_succ : queued succ q ≡ 0
    queued_succ = h.queue succ ∙ ap (λ n. due n (find succ m)) one_more ∙ due-suc left (find succ m)

    queued-q' : (k : ℕ) → queued k q' ≡ due (bound m succs k) (find k (count_down succ m))
    unfolding due
    queued-q' k = elim (Bool-cases (succ == k)) [
      | inl same ↦
          subst (λ k. queued k q' ≡ due (bound m succs k) (find k (count_down succ m)))
            ((==_iff succ k).0 same) self
      | inr other ↦
          let elsewhere : (w.self == k) ≡ false = ap (λ s. s == k) own ∙ other in
          let step : (if left == 0 then (if w.self == k then 1 else 0) else 0) + queued k q
              ≡ queued k q =
            ground (arith, elsewhere) in
          queued_step k left w (pred_ℤ w.p) q p_left
          ∙ step
          ∙ h.queue k
          ∙ ap (λ n. due n (find k m)) (same_bound k other)
          ∙ ap (due (bound m succs k)) (sym (find-count_down_other k succ m other))
    ]
      where
        self : queued succ q' ≡ due left (find succ (count_down succ m))
        self =
            queued_step succ left w (pred_ℤ w.p) q p_left
            ∙ rw (find-count_down_self succ m w at, own, queued_succ) (ground arith)

    counted_self : (v : TaskWrapper) → find succ (count_down succ m) ≡ some v → counted_down w ≡ v
    counted_self v e = some_injective (sym (find-count_down_self succ m w at) ∙ e)

    Rises-counted : Rises rank (count_down succ m)
    Rises-counted k v s e o = elim (Bool-cases (succ == k)) [
      | inl same ↦
          let k_self = sym ((==_iff succ k).0 same) in
          let v_self = counted_self v (subst (λ k. find k (count_down succ m) ≡ some v) k_self e) in
          subst (λ k. rank k < rank s) (sym k_self)
            (h.rises succ w s at (λ z. o (ap (λ (x : TaskWrapper). occurs s x.s) (sym v_self) ∙ z)))
      | inr other ↦ h.rises k v s (sym (find-count_down_other k succ m other) ∙ e) o
    ]

    released : IsRunning rank (bound (count_down succ m) succs) (count_down succ m) q'
    released = record {
      distinct = Distinct-count_down succ m h.distinct;
      keyed = Keyed-count_down succ m h.keyed;
      counts = λ k v e. elim (Bool-cases (succ == k)) [
        | inl same ↦
            let k_self = sym ((==_iff succ k).0 same) in
            let v_self =
              counted_self v (subst (λ k. find k (count_down succ m) ≡ some v) k_self e) in
            subst (λ k. v.p ≡ pos (bound (count_down succ m) succs k)) (sym k_self)
              (ap (λ (x : TaskWrapper). x.p) (sym v_self)
                ∙ p_left
                ∙ ap (λ n. pos (n + occurs succ succs)) (sym (edges-count_down succ succ m)))
        | inr other ↦
            h.counts k v (sym (find-count_down_other k succ m other) ∙ e)
            ∙ ap pos (
                same_bound k other ∙ ap (λ n. n + occurs k succs) (sym (edges-count_down k succ m)))
      ];
      closed = λ k e. omega (
        arith,
        h.closed k (find-none-count_down k succ m e),
        occurs_le k,
        edges-count_down k succ m,
      );
      rises = Rises-counted;
      queue = λ k.
          queued-q' k
          ∙ ap (λ n. due (n + occurs k succs) (find k (count_down succ m)))
              (sym (edges-count_down k succ m));
    }

module _ (rank : ℕ → ℕ) (tid : ℕ) where
  -- The sorting while the successors of the task `tid` are released.
  abbrev pub IsReleased : List ℕ → Sorting → Type 0
  IsReleased succs st =
      IsRunning rank (bound (erase tid st.write_task_map) succs) (erase tid st.write_task_map)
        st.task_sort

  abbrev pub size_left : Sorting → ℕ
  size_left st = length (erase tid st.write_task_map)

  release_completes :
      (succ : ℕ) (succs : List ℕ) (st : Sorting)
      → IsReleased (succ ∷ succs) st
      → (st' : Sorting) × (release succ st ≡ ok st')
        × IsReleased succs st'
        × (size_left st' ≡ size_left st)
  unfolding release expect ◌>>=◌
  release_completes succ succs st h =
      let (w, at) = there rank succ succs _ _ h in
      let in_map = find-erase succ tid st.write_task_map w at in
      (
        record {
          write_task_map = count_down succ st.write_task_map;
          task_sort = if is_zero_ℤ (pred_ℤ w.p) then push (ready w) st.task_sort else st.task_sort;
        },
        rw in_map refl,
        rw (erase-count_down tid succ st.write_task_map) (released rank succ succs _ _ h w at),
        ap length (erase-count_down tid succ st.write_task_map) ∙ length-count_down succ _,
      )

  pub release_all_completes :
      (succs : List ℕ) (st : Sorting)
      → IsReleased succs st
      → (st' : Sorting) × (release_all succs st ≡ ok st')
        × IsReleased [] st'
        × (size_left st' ≡ size_left st)
  unfolding release_all ◌>>=◌
  release_all_completes [] st h = (st, refl, h, refl)
  release_all_completes (succ ∷ succs) st h =
      let (mid, e, k, l) = release_completes succ succs st h in
      let (st', e', k', l') = release_all_completes succs mid k in (st', rw e e', k', l' ∙ l)
