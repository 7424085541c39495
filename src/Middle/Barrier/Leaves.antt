-- ===== src/Middle/Barrier/Leaves.antt =====
-- middle/BarrierWrapper.cpp: a context leaves the barrier that it has entered.
use syncd_sim.Base.{
  ℕ, Bool, false, List, [], ◌∷◌, Option, none, some, Table, assign_other, assign_self, ◌≡◌, ◌≢◌,
  refl, sym, ap, ◌∙◌, subst, All, Option-cases, inl, inr, some_injective,
}
use syncd_sim.Base.Effects.{Result, ok}
use syncd_sim.Base.Effects.Results.{◌>>=◌, expect, >>=-eq-ok}
use syncd_sim.TaskLib.Ids.{get_context_id}
use syncd_sim.TaskLib.Record.{Task, record_mem_op_action}
use syncd_sim.Middle.Barrier.{
  Barrier, has_context, on_enter, on_exit, join_exit, join_entry, entry_task,
}
use syncd_sim.Middle.Barrier.Search.{
  Joins, exit_to_join-Joins, IsOutside, has_context-append, Joins-some, Joins-resolved, All-with,
}
use syncd_sim.Middle.Barrier.Entered.{
  Joined, join_exit-Joined, join_entry-Joined, join_entry-found, entry_task-some, entry_task-none,
  begun,
}
use syncd_sim.Middle.Barrier.Inside.{Quiet, Found, Inside, Inside-on_exit}
use syncd_sim.Middle.Barrier.Meanwhile.{Meanwhile, Meanwhile-Inside}

module _ (cid : ℕ) (T T' : Table Task) where
  -- The barriers before the one that is joined are left.
  Joins-Found :
      (e : ℕ) (t0 : Task)
      → T e ≡ some t0
      → has_context cid t0.predecessors ≡ false
      → (ps : List ℕ) → Joins cid T ps (some e)
      → IsOutside cid T ps
      → All (λ q. q ≢ e → T' q ≡ T q) ps
      → Found cid e T' ps
  Joins-Found e t0 was away [] j o same = absurd (cc)
  Joins-Found e t0 was away (q ∷ ps) (t, at, inl (unarrived, some_q)) o same =
      inl (sym (some_injective some_q))
  Joins-Found e t0 was away (q ∷ ps) (t, at, inr (came, j)) o same = inr (
    (t, same.0 (λ is. absurd (cc (at, was, came, away, is))) ∙ at, o.0 t at),
    Joins-Found e t0 was away ps j o.1 same.1,
  )

  -- Where none is joined, all are left.
  Joins-Quiet :
      (ps : List ℕ)
      → Joins cid T ps none
      → IsOutside cid T ps
      → All (λ q. T' q ≡ T q) ps
      → All (Quiet cid T') ps
  Joins-Quiet [] j o same = tt
  Joins-Quiet (q ∷ ps) (t, at, inl (away, some_q)) o same = absurd (cc)
  Joins-Quiet (q ∷ ps) (t, at, inr (came, j)) o same =
      ((t, same.0 ∙ at, o.0 t at), Joins-Quiet ps j o.1 same.1)

-- Two facts of the same list.
All-pair : (P Q : ℕ → Type 0) (qs : List ℕ) → All P qs → All Q qs → All (λ q. P q × Q q) qs
All-pair P Q [] h k = tt
All-pair P Q (q ∷ qs) h k = ((h.0, k.0), All-pair P Q qs h.1 k.1)

module _ (arriving p : ℕ) (b b' : Barrier) (a : Task)
    (outside : IsOutside (get_context_id a.task_id) b.tasks b.exit_barrier_tasks)
    (apart : All (λ q. q ≢ arriving) b.exit_barrier_tasks) where
  Inside-exit :
      (ebt : ℕ) (t0 : Task)
      → Joins (get_context_id a.task_id) b.tasks b.exit_barrier_tasks (some ebt)
      → b.tasks ebt ≡ some t0
      → has_context (get_context_id a.task_id) t0.predecessors ≡ false
      → has_context (get_context_id a.task_id) t0.successors ≡ false
      → Joined b arriving ebt p b' a t0
      → Inside (get_context_id a.task_id) p b'
  Inside-exit ebt t0 joins at away stays h =
      subst (λ q. Inside (get_context_id a.task_id) q b') (sym h.is)
        (record {
          here = record {
            task = h.entered.after;
            at = h.entered.at;
            arrived =
                ap (has_context (get_context_id a.task_id)) h.entered.predecessors
                ∙ has_context-append _ t0.predecessors a.task_id refl;
            stays = ap (has_context (get_context_id a.task_id)) h.entered.successors ∙ stays;
          };
          place = inl (
              subst (Found (get_context_id a.task_id) ebt b'.tasks) (sym h.exits) (
                Joins-Found _ b.tasks b'.tasks ebt t0 at away b.exit_barrier_tasks joins outside (
                  All-with (λ q. q ≢ arriving) (λ q. q ≢ ebt → b'.tasks q ≡ b.tasks q)
                    (λ q ne other. h.entered.same q other (ne, tt)) b.exit_barrier_tasks apart)));
        })

  Inside-entry :
      (b1 : Barrier) (ebt : ℕ) (t0 : Task)
      → Joins (get_context_id a.task_id) b.tasks b.exit_barrier_tasks none
      → b1.exit_barrier_tasks ≡ b.exit_barrier_tasks
      → b1.entry_barrier_task ≡ some ebt
      → ((q : ℕ) → q ≢ ebt → b1.tasks q ≡ b.tasks q)
      → All (λ q. q ≢ ebt) b.exit_barrier_tasks
      → has_context (get_context_id a.task_id) t0.successors ≡ false
      → Joined b1 arriving ebt p b' a t0
      → Inside (get_context_id a.task_id) p b'
  Inside-entry b1 ebt t0 joins exits entry same apart_e stays h =
      subst (λ q. Inside (get_context_id a.task_id) q b') (sym h.is)
        (record {
          here = record {
            task = h.entered.after;
            at = h.entered.at;
            arrived =
                ap (has_context (get_context_id a.task_id)) h.entered.predecessors
                ∙ has_context-append _ t0.predecessors a.task_id refl;
            stays = ap (has_context (get_context_id a.task_id)) h.entered.successors ∙ stays;
          };
          place = inr (
            h.entry ∙ entry,
            subst (All (Quiet (get_context_id a.task_id) b'.tasks)) (sym (h.exits ∙ exits)) (
                Joins-Quiet _ b.tasks b'.tasks b.exit_barrier_tasks joins outside (
                  All-with (λ q. (q ≢ ebt) × (q ≢ arriving)) (λ q. b'.tasks q ≡ b.tasks q)
                    (λ q ne. h.entered.same q ne.0 (ne.1, tt) ∙ same q ne.0) b.exit_barrier_tasks
                    (All-pair _ _ b.exit_barrier_tasks apart_e apart))),
          );
        })

module _ (junk fresh arriving time addr p : ℕ) (b b' : Barrier) (a : Task)
    (at : b.tasks arriving ≡ some a) (unused : b.tasks fresh ≡ none)
    (outside : IsOutside (get_context_id a.task_id) b.tasks b.exit_barrier_tasks)
    (apart : All (λ q. q ≢ arriving) b.exit_barrier_tasks)
    (not_entry : b.entry_barrier_task ≢ some arriving)
    (entry_apart : All (λ q. b.entry_barrier_task ≢ some q) b.exit_barrier_tasks)
    (not_left : (e : ℕ) (t : Task)
      → b.entry_barrier_task ≡ some e
      → b.tasks e ≡ some t
      → has_context (get_context_id a.task_id) t.successors ≡ false) where
  abbrev enter : ℕ × Barrier → Result (ℕ × Barrier)
  enter r = join_entry arriving time r.0 r.1

  abbrev JoinsHere : Option ℕ → Type 0
  JoinsHere = Joins (get_context_id a.task_id) b.tasks b.exit_barrier_tasks

  arriving_old : arriving ≢ fresh
  arriving_old is = absurd (cc (at, unused, is))

  begun_stays :
      (t0 : Task)
      → (begun junk fresh addr a b).tasks fresh ≡ some t0
      → has_context (get_context_id a.task_id) t0.successors ≡ false
  unfolding record_mem_op_action has_context
  begun_stays t0 e =
      ap (λ (x : Task). has_context (get_context_id a.task_id) x.successors)
        (some_injective (sym e ∙ assign_self b.tasks fresh _))

  entry-Inside :
      JoinsHere none
      → enter (entry_task junk fresh addr a b) ≡ ok (p, b')
      → Inside (get_context_id a.task_id) p b'
  entry-Inside j e = elim (Option-cases b.entry_barrier_task) [
    | inl nobody ↦
        let b1 = begun junk fresh addr a b in
        let e' : join_entry arriving time fresh b1 ≡ ok (p, b') =
          ap enter (sym (entry_task-none junk fresh addr a b nobody)) ∙ e in
        let (t0, at_e) = join_entry-found arriving time fresh b1 _ e' in
        Inside-entry arriving p b b' a outside apart b1 fresh t0 j refl refl
          (λ q ne. assign_other b.tasks fresh q _ (λ is. ne (sym is)))
          (Joins-resolved _ b.tasks b.exit_barrier_tasks fresh j unused) (begun_stays t0 at_e)
          (join_entry-Joined arriving time fresh p b1 b' a t0 arriving_old
            (assign_other b.tasks fresh arriving _ (λ is. arriving_old (sym is)) ∙ at) at_e e')
    | inr (q, entry) ↦
        let e' : join_entry arriving time q b ≡ ok (p, b') =
          ap enter (sym (entry_task-some junk fresh addr q a b entry)) ∙ e in
        let (t0, at_e) = join_entry-found arriving time q b _ e' in
        Inside-entry arriving p b b' a outside apart b q t0 j refl entry (λ r ne. refl)
          (All-with _ _ (λ r ne is. ne (entry ∙ ap some (sym is))) b.exit_barrier_tasks entry_apart)
          (not_left q t0 entry at_e)
          (join_entry-Joined arriving time q p b b' a t0
            (λ is. not_entry (entry ∙ ap some (sym is))) at at_e e')
  ]

  exit-Inside :
      (ebt : ℕ)
      → JoinsHere (some ebt)
      → join_exit arriving time ebt b ≡ ok (p, b')
      → Inside (get_context_id a.task_id) p b'
  exit-Inside ebt j e =
      let (t0, at_e, away, stays, ne) =
        Joins-some _ b.tasks b.exit_barrier_tasks ebt j outside arriving apart in
      Inside-exit arriving p b b' a outside apart ebt t0 j at_e away stays
        (join_exit-Joined arriving time ebt p b b' a t0 ne at at_e e)

  entered-Inside :
      on_enter junk fresh arriving time addr b ≡ ok (p, b') → Inside (get_context_id a.task_id) p b'
  unfolding on_enter expect ◌>>=◌
  entered-Inside e =
      let (o, found, entered) = >>=-eq-ok _ _ (rw at at e) in
      by_case o (exit_to_join-Joins _ b.tasks b.exit_barrier_tasks o found) entered
    where
      by_case :
          (o : Option ℕ)
          → JoinsHere o
          → (elim o [
            | some ebt ↦ join_exit arriving time ebt b
            | none ↦ enter (entry_task junk fresh addr a b)
          ])
            ≡ ok (p, b')
          → Inside (get_context_id a.task_id) p b'
      by_case none j entered = entry-Inside j entered
      by_case (some ebt) j entered = exit-Inside ebt j entered

  -- Let a context be outside of the barriers that are being left, which means that in each it is
  -- among the successors just when it is among the predecessors; let its task be none of the
  -- barriers' tasks, the barrier that is being entered be none of those being left and not have
  -- the context among its successors, and the address for a new task be unused. Let `onEnter` of
  -- its task return a barrier. Then let, in any order, tasks of other contexts enter (none of them
  -- a barrier's task, with unused addresses for new tasks), tasks leave without finishing that
  -- barrier, and tasks change otherwise, where the context neither joins nor leaves the
  -- predecessors or the successors of that barrier or of one being left. After that `onExit` of
  -- any task of the context succeeds, with the same barrier.
  pub on_enter-on_exit :
      (departing exit_time : ℕ) (now : Barrier) (d : Task)
      → on_enter junk fresh arriving time addr b ≡ ok (p, b')
      → Meanwhile (get_context_id a.task_id) p b' now
      → now.tasks departing ≡ some d
      → get_context_id d.task_id ≡ get_context_id a.task_id
      → (finished : Bool) × (b'' : Barrier) × (on_exit departing exit_time now
          ≡ ok ((p, finished), b''))
  on_enter-on_exit departing exit_time now d e meanwhile at_d is =
      Inside-on_exit (get_context_id a.task_id) p departing exit_time now d
        (Meanwhile-Inside (get_context_id a.task_id) p b' now meanwhile (entered-Inside e)) at_d is
