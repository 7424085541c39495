-- ===== src/Middle/Barrier/Changes.antt =====
-- Changes at the barriers of middle/BarrierWrapper.cpp that leave a context inside of one.
use syncd_sim.Base.{
  ℕ, ◌+◌, Bool, true, List, [], ◌∷◌, ◌++◌, ◌==◌, length, none, some, Table, assign, ◌≡◌, ◌≢◌, refl,
  sym, ap, ◌∙◌, subst, arith, All, Bool-cases, Option-cases, inl, inr, some_injective, ==_iff,
}
use syncd_sim.Base.Effects.{ok, ok_injective}
use syncd_sim.Base.Effects.Results.{>>=-eq-ok, expect-eq-ok}
use syncd_sim.TaskLib.Ids.{get_context_id}
use syncd_sim.TaskLib.Record.{Task}
use syncd_sim.Middle.Barrier.{Barrier, has_context, on_exit, open_exit, close_exit, without}
use syncd_sim.Middle.Barrier.Calls.{update-parts}
use syncd_sim.Middle.Barrier.Inside.{Quiet, Found, Here, Inside}

module _ (cid : ℕ) where
  -- The context is among the predecessors and among the successors of the task just as before.
  abbrev pub Keeps : Table Task → Table Task → ℕ → Type 0
  Keeps T T' q =
      (t : Task)
      → T q ≡ some t
      → (t' : Task) × (T' q ≡ some t')
        × (has_context cid t'.predecessors ≡ has_context cid t.predecessors)
        × (has_context cid t'.successors ≡ has_context cid t.successors)

module _ (cid p : ℕ) where
  Quiet-kept : (T T' : Table Task) (q : ℕ) → Keeps cid T T' q → Quiet cid T q → Quiet cid T' q
  Quiet-kept T T' q k (t, at, left) =
      let (t', at', preds, succs) = k t at in (t', at', succs ∙ left ∙ sym preds)

  All-kept :
      (T T' : Table Task) (qs : List ℕ)
      → All (Keeps cid T T') qs
      → All (Quiet cid T) qs
      → All (Quiet cid T') qs
  All-kept T T' [] k h = tt
  All-kept T T' (q ∷ qs) k h = (Quiet-kept T T' q k.0 h.0, All-kept T T' qs k.1 h.1)

  Found-kept :
      (T T' : Table Task) (qs : List ℕ)
      → All (Keeps cid T T') qs
      → Found cid p T qs
      → Found cid p T' qs
  Found-kept T T' [] k f = f
  Found-kept T T' (q ∷ qs) k (inl is) = inl is
  Found-kept T T' (q ∷ qs) k (inr (quiet, f)) =
      inr (Quiet-kept T T' q k.0 quiet, Found-kept T T' qs k.1 f)

  Here-kept : (T T' : Table Task) → Keeps cid T T' p → Here cid p T → Here cid p T'
  Here-kept T T' k h =
      let (t', at', preds, succs) = k h.task h.at in
      record { task = t'; at = at'; arrived = preds ∙ h.arrived; stays = succs ∙ h.stays }

  -- A change of the tasks that leaves the context where it is.
  pub Inside-kept :
      (b b' : Barrier)
      → Keeps cid b.tasks b'.tasks p
      → All (Keeps cid b.tasks b'.tasks) b.exit_barrier_tasks
      → b'.exit_barrier_tasks ≡ b.exit_barrier_tasks
      → (b.entry_barrier_task ≡ some p → b'.entry_barrier_task ≡ some p)
      → Inside cid p b
      → Inside cid p b'
  Inside-kept b b' k ks exits entry i = record {
    here = Here-kept b.tasks b'.tasks k i.here;
    place = elim i.place [
      | inl f ↦ inl (
          subst (Found cid p b'.tasks) (sym exits)
            (Found-kept b.tasks b'.tasks b.exit_barrier_tasks ks f))
      | inr (at, quiet) ↦ inr (
        entry at,
        subst (All (Quiet cid b'.tasks)) (sym exits)
            (All-kept b.tasks b'.tasks b.exit_barrier_tasks ks quiet),
      )
    ];
  }

  Found-without :
      (T : Table Task) (q : ℕ) (qs : List ℕ)
      → q ≢ p
      → Found cid p T qs
      → Found cid p T (without q qs)
  unfolding without
  Found-without T q [] ne f = f
  Found-without T q (r ∷ qs) ne f = elim (Bool-cases (r == q)) [
    | inl e ↦ elim f [
      | inl is ↦ absurd (ne (sym ((==_iff r q).0 e) ∙ is))
      | inr (quiet, f') ↦ rw (e, without) (Found-without T q qs ne f')
    ]
    | inr e ↦ elim f [
      | inl is ↦ rw (e, without) (inl is)
      | inr (quiet, f') ↦ rw (e, without) (inr (quiet, Found-without T q qs ne f'))
    ]
  ]

  All-without :
      (T : Table Task) (q : ℕ) (qs : List ℕ)
      → All (Quiet cid T) qs
      → All (Quiet cid T) (without q qs)
  unfolding without
  All-without T q [] h = tt
  All-without T q (r ∷ qs) h = elim (Bool-cases (r == q)) [
    | inl e ↦ rw (e, without) (All-without T q qs h.1)
    | inr e ↦ rw (e, without) (h.0, All-without T q qs h.1)
  ]

  Found-more :
      (T : Table Task) (e : ℕ) (qs : List ℕ) → Found cid p T qs → Found cid p T (qs ++ (e ∷ []))
  Found-more T e [] f = elim f [ ]
  Found-more T e (q ∷ qs) (inl is) = inl is
  Found-more T e (q ∷ qs) (inr (quiet, f)) = inr (quiet, Found-more T e qs f)

  Found-last :
      (T : Table Task) (qs : List ℕ) → All (Quiet cid T) qs → Found cid p T (qs ++ (p ∷ []))
  Found-last T [] h = inl refl
  Found-last T (q ∷ qs) h = inr (h.0, Found-last T qs h.1)

  close_exit-Inside :
      (q0 q : ℕ) (finished : Bool) (b b' : Barrier)
      → close_exit q0 b ≡ ok ((q, finished), b')
      → (finished ≡ true → q ≢ p)
      → Inside cid p b
      → Inside cid p b'
  unfolding close_exit
  close_exit-Inside q0 q finished b b' e other i =
      let (t, found, rest) = >>=-eq-ok _ _ e in
      elim (Bool-cases (length t.predecessors == 1 + length t.successors)) [
        | inl all ↦
            subst (λ (r : (ℕ × Bool) × Barrier). (r.0.1 ≡ true → r.0.0 ≢ p) → Inside cid p r.1)
              (ok_injective (rw all at rest)) closed other
        | inr some_stay ↦
            subst (λ (r : (ℕ × Bool) × Barrier). Inside cid p r.1)
              (ok_injective (rw some_stay at rest)) i
      ]
    where
      closed :
          (true ≡ true → q0 ≢ p)
          → Inside cid p (record b { exit_barrier_tasks = without q0 b.exit_barrier_tasks })
      closed ne = record {
        here = record i.here {};
        place = elim i.place [
          | inl f ↦ inl (Found-without b.tasks q0 b.exit_barrier_tasks (ne refl) f)
          | inr (at, quiet) ↦ inr (at, All-without b.tasks q0 b.exit_barrier_tasks quiet)
        ];
      }

  Keeps-assign :
      (T : Table Task) (r : ℕ) (t t' : Task)
      → T r ≡ some t
      → t'.predecessors ≡ t.predecessors
      → t'.successors ≡ t.successors
      → (q : ℕ) → Keeps cid T (assign T r t') q
  Keeps-assign T r t t' at preds succs q u at_u = elim (Bool-cases (r == q)) [
    | inl e ↦
        let is : u ≡ t = some_injective (sym at_u ∙ ap T (sym ((==_iff r q).0 e)) ∙ at) in
        (
          t',
          rw e refl,
          ap (has_context cid) (preds ∙ ap (λ (x : Task). x.predecessors) (sym is)),
          ap (has_context cid) (succs ∙ ap (λ (x : Task). x.successors) (sym is)),
        )
    | inr e ↦ (u, rw e at_u, refl, refl)
  ]

  Keeps-all :
      (T T' : Table Task) → ((q : ℕ) → Keeps cid T T' q) → (qs : List ℕ) → All (Keeps cid T T') qs
  Keeps-all T T' k [] = tt
  Keeps-all T T' k (q ∷ qs) = (k q, Keeps-all T T' k qs)

  opened-Inside :
      (e : ℕ) (t t' : Task) (b : Barrier)
      → b.entry_barrier_task ≡ some e
      → b.tasks e ≡ some t
      → t'.predecessors ≡ t.predecessors
      → t'.successors ≡ t.successors
      → Inside cid p b
      → Inside cid p (record {
        tasks = assign b.tasks e t';
        entry_barrier_task = none;
        exit_barrier_tasks = b.exit_barrier_tasks ++ (e ∷ []);
      })
  opened-Inside e t t' b entry at preds succs i = record {
    here = Here-kept b.tasks T (k p) i.here;
    place = elim i.place [
      | inl f ↦
          inl (Found-more T e b.exit_barrier_tasks (Found-kept b.tasks T b.exit_barrier_tasks ks f))
      | inr (p_enters, quiet) ↦
          let is : p ≡ e = some_injective (sym p_enters ∙ entry) in
          inl (
            subst (λ r. Found cid p T (b.exit_barrier_tasks ++ (r ∷ []))) is
              (Found-last T b.exit_barrier_tasks
                (All-kept b.tasks T b.exit_barrier_tasks ks quiet)))
    ];
  }
    where
      T : Table Task
      T = assign b.tasks e t'

      k : (q : ℕ) → Keeps cid b.tasks T q
      k = Keeps-assign b.tasks e t t' at preds succs

      ks : All (Keeps cid b.tasks T) b.exit_barrier_tasks
      ks = Keeps-all b.tasks T k b.exit_barrier_tasks

  open_exit-Inside :
      (c time q : ℕ) (b b1 : Barrier)
      → open_exit c time b ≡ ok (q, b1)
      → Inside cid p b
      → Inside cid p b1
  unfolding open_exit
  open_exit-Inside c time q b b1 e i =
      let (r, found, e1) = >>=-eq-ok _ _ e in
      let (t, found_t, e2) = >>=-eq-ok _ _ e1 in
      let (u, checked, e3) = >>=-eq-ok _ _ e2 in
      let (T, call, made) = >>=-eq-ok _ _ e3 in
      let (v, v', at, changed, is) = update-parts _ _ _ _ call in
      let t_end : (v'.predecessors ≡ v.predecessors) × (v'.successors ≡ v.successors) =
        (ground (arith, changed), ground (arith, changed)) in
      subst (λ (o : ℕ × Barrier). Inside cid p o.1) (ok_injective (rw is at made))
        (opened-Inside r v v' b (expect-eq-ok _ _ found) at t_end.0 t_end.1 i)

  -- `onExit` of any context leaves the one that is inside there, unless the barrier is finished.
  pub on_exit-Inside :
      (other time q : ℕ) (finished : Bool) (b b' : Barrier)
      → on_exit other time b ≡ ok ((q, finished), b')
      → (finished ≡ true → q ≢ p)
      → Inside cid p b
      → Inside cid p b'
  unfolding on_exit
  on_exit-Inside other time q finished b b' e ne i =
      let (d, found_d, e1) = >>=-eq-ok _ _ e in
      let (o, found_o, e2) = >>=-eq-ok _ _ e1 in
      elim (Option-cases o) [
        | inl none_found ↦
            let ((r, b1), opens, closes) = >>=-eq-ok _ _ (rw none_found at e2) in
            close_exit-Inside r q finished b1 b' closes ne
              (open_exit-Inside (get_context_id d.task_id) time r b b1 opens i)
        | inr (r, found) ↦ close_exit-Inside r q finished b b' (rw found at e2) ne i
      ]
