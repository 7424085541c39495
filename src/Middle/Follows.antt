-- ===== src/Middle/Follows.antt =====
-- The order of the index that middle/taskWrite.cpp writes: no task comes before one that it follows.
use syncd_sim.Base.{
  ℕ, zero, suc, ◌≤◌, List, [], ◌∷◌, ◌++◌, some, ◌≡◌, sym, arith, All, All-append, subst,
}
use syncd_sim.Base.Effects.{ok, ok_injective}
use syncd_sim.Base.Effects.Results.{>>=-eq-ok, expect-eq-ok}
use syncd_sim.Middle.Writer.{
  TaskWrapper, WriteMap, Ready, Sorting, find, erase, index_task, index_loop, sort_index,
}
use syncd_sim.Middle.Places.{Keyed, Keyed-find, Keyed-erase}
use syncd_sim.Middle.Edges.{
  occurs, edges, succs_of, edges-erase_le, edges-erase, find-erase, succs_of-find, AtMost-le,
}
use syncd_sim.Middle.Order.{Waits, Same, Idle, Idle-map, IsReleasing, release_all-IsReleasing}

-- `k` is not among the successors of the task `j`.
abbrev pub IsFree : WriteMap → ℕ → ℕ → Type 0
IsFree m0 k j = occurs k (succs_of j m0) ≡ 0

-- No task of the list is a successor of itself or of a later one.
abbrev pub IsOrdered : WriteMap → List (ℕ × ℕ) → Type 0
IsOrdered m0 [] = Unit
IsOrdered m0 ((k, p) ∷ es) = All (λ (e : ℕ × ℕ). IsFree m0 k e.0) ((k, p) ∷ es) × IsOrdered m0 es

-- Every task waits for its edges, and nothing precedes task 0.
pub record IsCounted (m : WriteMap) : Type 0 where
  pub keyed : Keyed m
  pub waits : Waits (λ k. edges k m) m
  pub root : edges 0 m ≡ 0

pub record IsOrdering (m0 : WriteMap) (entries : List (ℕ × ℕ)) (m : WriteMap) (q : List Ready)
    : Type 0 where
  pub keyed : Keyed m
  pub same : Same m0 m
  pub waits : Waits (λ k. edges k m) m
  pub idle : Idle (λ k. edges k m) q
  pub done : All (λ (e : ℕ × ℕ). edges e.0 m ≡ 0) entries
  pub ordered : IsOrdered m0 entries

All-map {κ μ} :
    (P : ℕ × ℕ → Type κ) (Q : ℕ × ℕ → Type μ)
    → ((e : ℕ × ℕ) → P e → Q e)
    → (es : List (ℕ × ℕ)) → All P es
    → All Q es
All-map P Q h [] a = tt
All-map P Q h (e ∷ es) a = (h e a.0, All-map P Q h es a.1)

IsOrdered-append :
    (m0 : WriteMap) (k p : ℕ) (es : List (ℕ × ℕ))
    → All (λ (e : ℕ × ℕ). IsFree m0 e.0 k) es
    → IsFree m0 k k
    → IsOrdered m0 es
    → IsOrdered m0 (es ++ ((k, p) ∷ []))
IsOrdered-append m0 k p [] a self o = ((self, tt), tt)
IsOrdered-append m0 k p ((j, r) ∷ es) a self o = (
  (o.0.0, All-append _ es ((k, p) ∷ []) o.0.1 (a.0, tt)),
  IsOrdered-append m0 k p es a.1 self o.1,
)

module _ (m0 : WriteMap) where
  index_task-IsOrdering :
      (entries : List (ℕ × ℕ)) (m : WriteMap) (q : List Ready) (start tid offset : ℕ) (st : Sorting)
      → IsOrdering m0 entries m ((start, (tid, offset)) ∷ q)
      → index_task tid (record { write_task_map = m; task_sort = q }) ≡ ok st
      → IsOrdering m0 (entries ++ ((tid, offset) ∷ [])) st.write_task_map st.task_sort
  unfolding index_task occurs
  index_task-IsOrdering entries m q start tid offset st h e =
      let (tw, found, e1) = >>=-eq-ok _ _ e in
      let (_, own, e2) = >>=-eq-ok _ _ e1 in
      let (mid, run, made) = >>=-eq-ok _ _ e2 in
      let at = expect-eq-ok _ _ found in
      let (r, edges_kept) = release_all-IsReleasing m0 tid tw.s _ mid (begin tw at) run in
      let fewer : (k : ℕ) → edges k (erase tid mid.write_task_map) ≤ edges k m =
        λ k. omega (arith, edges_kept k, edges-erase_le k tid m) in
      let free : (k : ℕ) → edges k m ≡ 0 → IsFree m0 k tid =
        λ k z. rw (h.same.succs tid tw at) (omega (arith, z, edges-erase k tid m tw at)) in
      subst
        (λ (st : Sorting).
          IsOrdering m0 (entries ++ ((tid, offset) ∷ [])) st.write_task_map st.task_sort)
        (ok_injective made)
        (record {
          keyed = Keyed-erase tid mid.write_task_map r.keyed;
          same = record {
            succs = λ k w f. r.same.succs k w (find-erase k tid mid.write_task_map w f);
          };
          waits = record {
            each = λ k w f.
                AtMost-le _ _ w.p (omega arith)
                  (r.waits.each k w (find-erase k tid mid.write_task_map w f));
          };
          idle = r.idle;
          done =
              All-append _ entries ((tid, offset) ∷ [])
                (All-map _ _ (λ e z. omega (arith, z, fewer e.0)) entries h.done)
                (omega (arith, h.idle.0, fewer tid), tt);
          ordered =
              IsOrdered-append m0 tid offset entries
                (All-map _ _ (λ e z. free e.0 z) entries h.done) (free tid h.idle.0) h.ordered;
        })
    where
      begin :
          (tw : TaskWrapper)
          → find tid m ≡ some tw
          → IsReleasing m0 tid tw.s (record { write_task_map = m; task_sort = q })
      begin tw at = record {
        keyed = h.keyed;
        same = h.same;
        waits = record {
          each = λ k w f. AtMost-le _ _ w.p (edges-erase k tid m tw at) (h.waits.each k w f);
        };
        idle = Idle-map _ _ (λ k. edges-erase_le k tid m) q h.idle.1;
      }

  index_loop-IsOrdered :
      (fuel : ℕ) (entries es : List (ℕ × ℕ)) (m : WriteMap) (q : List Ready)
      → IsOrdering m0 entries m q
      → index_loop fuel entries m q ≡ ok es
      → IsOrdered m0 es
  unfolding index_loop
  index_loop-IsOrdered zero entries es m [] h e = subst (IsOrdered m0) (ok_injective e) h.ordered
  index_loop-IsOrdered (suc fuel) entries es m [] h e =
      subst (IsOrdered m0) (ok_injective e) h.ordered
  index_loop-IsOrdered zero entries es m (r ∷ q) h e = absurd (cc)
  index_loop-IsOrdered (suc fuel) entries es m ((start, (tid, offset)) ∷ q) h e =
      let (st, round, rest) = >>=-eq-ok _ _ e in
      index_loop-IsOrdered fuel _ es st.write_task_map st.task_sort
        (index_task-IsOrdering entries m q start tid offset st h round) rest

  -- Let every entry of the map stand under its own number and wait for at least as many
  -- predecessors as there are edges to it, and task 0 have none. If the sorting completes, no task
  -- in the index is a successor of itself or of a task that comes after it.
  pub sort_index-IsOrdered :
      (es : List (ℕ × ℕ)) → IsCounted m0 → sort_index m0 ≡ ok es → IsOrdered m0 es
  unfolding sort_index
  sort_index-IsOrdered es h e =
      let (tw, found, looped) = >>=-eq-ok _ _ e in
      let at = expect-eq-ok _ _ found in
      index_loop-IsOrdered _ [] es m0 _
        (record {
          keyed = h.keyed;
          same = record { succs = λ k w f. succs_of-find k m0 w f };
          waits = h.waits;
          idle = (subst (λ k. edges k m0 ≡ 0) (sym (Keyed-find 0 m0 tw h.keyed at)) h.root, tt);
          done = tt;
          ordered = tt;
        })
        looped
