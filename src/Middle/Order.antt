-- ===== src/Middle/Order.antt =====
-- In the index that middle/taskWrite.cpp sorts, no task comes before one that it follows.
use syncd_sim.Base.{
  ℕ, suc, ◌+◌, ◌≤◌, true, List, [], ◌∷◌, ◌==◌, if◌then◌else◌, some, ◌≡◌, refl, sym, ap, ◌∙◌, arith,
  All, Bool-cases, inl, inr, pred_ℤ, is_zero_ℤ, ==_iff, some_injective, subst,
}
use syncd_sim.Base.Effects.{ok, ok_injective}
use syncd_sim.Base.Effects.Results.{>>=-eq-ok, expect-eq-ok}
use syncd_sim.Middle.Writer.{
  TaskWrapper, WriteMap, Ready, ready, Sorting, find, erase, count_down, push, release, release_all,
}
use syncd_sim.Middle.Places.{Keyed, Keyed-find, Keyed-count_down, All-push}
use syncd_sim.Middle.Edges.{
  occurs, edges, succs_of, edges-erase-count_down, counted_down, find-count_down_self,
  find-count_down_other, AtMost, AtMost-pred, AtMost-le, AtMost-zero,
}

-- Every task of the map waits for as many predecessors, at least, as `bound` says.
pub record Waits (bound : ℕ → ℕ) (m : WriteMap) : Type 0 where
  pub each : (k : ℕ) (w : TaskWrapper) → find k m ≡ some w → AtMost (bound k) w.p

-- The successors of the tasks of `m` are those that `m0` has.
pub record Same (m0 m : WriteMap) : Type 0 where
  pub succs : (k : ℕ) (w : TaskWrapper) → find k m ≡ some w → succs_of k m0 ≡ w.s

-- The tasks that are ready have no edge from the tasks that are left.
abbrev pub Idle : (ℕ → ℕ) → List Ready → Type 0
Idle e = All (λ (r : Ready). e r.1.0 ≡ 0)

pub Idle-map : (e e' : ℕ → ℕ) → ((k : ℕ) → e' k ≤ e k) → (q : List Ready) → Idle e q → Idle e' q
Idle-map e e' h [] a = tt
Idle-map e e' h (r ∷ q) a = (omega (arith, h r.1.0, a.0), Idle-map e e' h q a.1)

-- While the successors `succs` of `tid` are still to be released.
pub record IsReleasing (m0 : WriteMap) (tid : ℕ) (succs : List ℕ) (st : Sorting) : Type 0 where
  pub keyed : Keyed st.write_task_map
  pub same : Same m0 st.write_task_map
  pub waits : Waits (λ k. edges k (erase tid st.write_task_map) + occurs k succs) st.write_task_map
  pub idle : Idle (λ k. edges k (erase tid st.write_task_map)) st.task_sort

module _ (m0 : WriteMap) (tid succ : ℕ) (succs : List ℕ) (st : Sorting)
    (h : IsReleasing m0 tid (succ ∷ succs) st) (w : TaskWrapper)
    (at : find succ st.write_task_map ≡ some w) where
  abbrev counted : WriteMap
  counted = count_down succ st.write_task_map

  same_edges : (k : ℕ) → edges k (erase tid counted) ≡ edges k (erase tid st.write_task_map)
  same_edges k = edges-erase-count_down k tid succ st.write_task_map

  left_self : (v : TaskWrapper) → find succ counted ≡ some v → counted_down w ≡ v
  left_self v e = some_injective (sym (find-count_down_self succ st.write_task_map w at) ∙ e)

  abbrev bound : ℕ → ℕ
  bound k = edges k (erase tid counted) + occurs k succs

  -- The successor itself, whose count has gone down.
  waits_self : AtMost (bound succ) (counted_down w).p
  unfolding occurs
  waits_self = AtMost-pred (bound succ) w.p (
      AtMost-le (suc (bound succ)) _ w.p (omega (arith, same_edges succ, one))
        (h.waits.each succ w at))
    where
      one : occurs succ (succ ∷ succs) ≡ suc (occurs succ succs)
      one = ground arith

  Waits-counted : Waits bound counted
  unfolding occurs
  Waits-counted = record {
    each = λ k v e. elim (Bool-cases (succ == k)) [
      | inl same ↦
          let e' = subst (λ i. find i counted ≡ some v) (sym ((==_iff succ k).0 same)) e in
          subst (λ i. AtMost (bound i) v.p) ((==_iff succ k).0 same)
            (subst (λ (x : TaskWrapper). AtMost (bound succ) x.p) (left_self v e') waits_self)
      | inr other ↦
          let e' = sym (find-count_down_other k succ st.write_task_map other) ∙ e in
          AtMost-le _ _ v.p (omega (arith, same_edges k)) (h.waits.each k v e')
    ];
  }

  Same-counted : Same m0 counted
  Same-counted = record {
    succs = λ k v e. elim (Bool-cases (succ == k)) [
      | inl same ↦
          subst (λ k. succs_of k m0 ≡ v.s) ((==_iff succ k).0 same)
            (h.same.succs succ w at
              ∙ ap (λ (x : TaskWrapper). x.s)
                  (left_self v
                    (subst (λ i. find i counted ≡ some v) (sym ((==_iff succ k).0 same)) e)))
      | inr other ↦
          h.same.succs k v (sym (find-count_down_other k succ st.write_task_map other) ∙ e)
    ];
  }

  Idle-counted : Idle (λ k. edges k (erase tid counted)) st.task_sort
  Idle-counted = Idle-map _ _ (λ k. omega (arith, same_edges k)) st.task_sort h.idle

  -- A successor that is ready has no edge from the tasks that are left.
  ready_idle : is_zero_ℤ (pred_ℤ w.p) ≡ true → edges (w.self) (erase tid counted) ≡ 0
  ready_idle zero_left =
      subst (λ k. edges k (erase tid counted) ≡ 0)
        (sym (Keyed-find succ st.write_task_map w h.keyed at))
        (omega (arith, AtMost-zero (bound succ) (pred_ℤ w.p) zero_left waits_self))

  released : Sorting
  released = record {
    write_task_map = counted;
    task_sort = if is_zero_ℤ (pred_ℤ w.p) then push (ready w) st.task_sort else st.task_sort;
  }

  released-IsReleasing : IsReleasing m0 tid succs released
  unfolding released
  released-IsReleasing = record {
    keyed = Keyed-count_down succ st.write_task_map h.keyed;
    same = Same-counted;
    waits = Waits-counted;
    idle = elim (Bool-cases (is_zero_ℤ (pred_ℤ w.p))) [
      | inl z ↦ rw z (All-push _ (ready w) st.task_sort (ready_idle z) Idle-counted)
      | inr n ↦ rw n Idle-counted
    ];
  }

-- The edges from the tasks that are left when `tid` is out are what they were.
abbrev pub SameEdges : ℕ → Sorting → Sorting → Type 0
SameEdges tid st st' =
    (k : ℕ) → edges k (erase tid st'.write_task_map) ≡ edges k (erase tid st.write_task_map)

release-IsReleasing :
    (m0 : WriteMap) (tid succ : ℕ) (succs : List ℕ) (st st' : Sorting)
    → IsReleasing m0 tid (succ ∷ succs) st
    → release succ st ≡ ok st'
    → IsReleasing m0 tid succs st' × SameEdges tid st st'
unfolding release released
release-IsReleasing m0 tid succ succs st st' h e =
    let (w, found, made) = >>=-eq-ok _ _ e in
    let at = expect-eq-ok _ _ found in
    subst (λ st'. IsReleasing m0 tid succs st' × SameEdges tid st st') (ok_injective made)
      (released-IsReleasing m0 tid succ succs st h w at, same_edges m0 tid succ succs st h w at)

pub release_all-IsReleasing :
    (m0 : WriteMap) (tid : ℕ) (succs : List ℕ) (st st' : Sorting)
    → IsReleasing m0 tid succs st
    → release_all succs st ≡ ok st'
    → IsReleasing m0 tid [] st' × SameEdges tid st st'
unfolding release_all
release_all-IsReleasing m0 tid [] st st' h e =
    subst (λ st'. IsReleasing m0 tid [] st' × SameEdges tid st st') (ok_injective e) (h, λ k. refl)
release_all-IsReleasing m0 tid (succ ∷ succs) st st' h e =
    let (mid, first, rest) = >>=-eq-ok _ _ e in
    let (h1, s1) = release-IsReleasing m0 tid succ succs st mid h first in
    let (h2, s2) = release_all-IsReleasing m0 tid succs mid st' h1 rest in (h2, λ k. s2 k ∙ s1 k)
