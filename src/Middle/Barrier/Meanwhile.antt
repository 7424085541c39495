-- ===== src/Middle/Barrier/Meanwhile.antt =====
-- What other contexts do at a barrier (middle/BarrierWrapper.cpp) while one is inside of it.
use syncd_sim.Base.{
  ℕ, Bool, true, List, [], ◌∷◌, ◌++◌, ◌==◌, Option, none, some, Table, assign_other, ◌≡◌, ◌≢◌, refl,
  sym, ap, ◌∙◌, subst, arith, All, Bool-cases, Option-cases, inl, inr, some_injective, ==_iff,
}
use syncd_sim.Base.Effects.{Result, ok}
use syncd_sim.Base.Effects.Results.{◌>>=◌, expect, >>=-eq-ok}
use syncd_sim.TaskLib.Ids.{get_context_id}
use syncd_sim.TaskLib.Record.{Task}
use syncd_sim.Middle.Barrier.{
  Barrier, has_context, on_enter, on_exit, join_exit, join_entry, entry_task,
}
use syncd_sim.Middle.Barrier.Search.{Joins, exit_to_join-Joins, All-with}
use syncd_sim.Middle.Barrier.Entered.{
  Joined, join_exit-Joined, join_entry-Joined, join_exit-found, join_entry-found, entry_task-some,
  entry_task-none, begun,
}
use syncd_sim.Middle.Barrier.Inside.{Found, Inside}
use syncd_sim.Middle.Barrier.Changes.{Keeps, Inside-kept, on_exit-Inside}

has_context-other :
    (cid : ℕ) (xs : List ℕ) (id : ℕ)
    → get_context_id id ≢ cid
    → has_context cid (xs ++ (id ∷ [])) ≡ has_context cid xs
unfolding has_context
has_context-other cid [] id ne = ground (arith, ne)
has_context-other cid (x ∷ xs) id ne = ground (arith, has_context-other cid xs id ne)

-- A barrier that is joined is among those that are being left.
Joins-All :
    (cid : ℕ) (T : Table Task) (P : ℕ → Type 0) (ps : List ℕ) (e : ℕ)
    → Joins cid T ps (some e)
    → All P ps
    → P e
Joins-All cid T P [] e j h = absurd (cc)
Joins-All cid T P (q ∷ ps) e (t, at, inl (away, some_q)) h =
    subst P (sym (some_injective some_q)) h.0
Joins-All cid T P (q ∷ ps) e (t, at, inr (came, j)) h = Joins-All cid T P ps e j h.1

Found-All :
    (cid p : ℕ) (T : Table Task) (P : ℕ → Type 0) (ps : List ℕ) → Found cid p T ps → All P ps → P p
Found-All cid p T P [] f h = elim f [ ]
Found-All cid p T P (q ∷ ps) (inl is) h = subst P is h.0
Found-All cid p T P (q ∷ ps) (inr (quiet, f)) h = Found-All cid p T P ps f h.1

module _ (cid p junk fresh other time addr q : ℕ) (b b' : Barrier) (a : Task)
    (at : b.tasks other ≡ some a) (foreign : get_context_id a.task_id ≢ cid)
    (unused : b.tasks fresh ≡ none) (apart : All (λ r. r ≢ other) b.exit_barrier_tasks)
    (not_entry : b.entry_barrier_task ≢ some other) where
  Joined-Keeps :
      (b1 : Barrier) (ebt : ℕ) (t0 : Task)
      → b1.tasks ebt ≡ some t0
      → Joined b1 other ebt q b' a t0
      → (r : ℕ) → r ≢ other
      → Keeps cid b1.tasks b'.tasks r
  Joined-Keeps b1 ebt t0 at_e h r ne t at_r = elim (Bool-cases (r == ebt)) [
    | inl e ↦
        let is_e : r ≡ ebt = (==_iff r ebt).0 e in
        let is : t0 ≡ t = some_injective (sym at_e ∙ ap b1.tasks (sym is_e) ∙ at_r) in
        (
          h.entered.after,
          ap b'.tasks is_e ∙ h.entered.at,
          ap (has_context cid) h.entered.predecessors
              ∙ has_context-other cid t0.predecessors a.task_id foreign
              ∙ ap (λ (x : Task). has_context cid x.predecessors) is,
          ap (has_context cid) h.entered.successors
              ∙ ap (λ (x : Task). has_context cid x.successors) is,
        )
    | inr e ↦
        (t, h.entered.same r (λ is. absurd (ground (arith, is, e))) (ne, tt) ∙ at_r, refl, refl)
  ]

  apart_from : Inside cid p b → p ≢ other
  apart_from i = elim i.place [
    | inl f ↦ Found-All cid p b.tasks (λ r. r ≢ other) b.exit_barrier_tasks f apart
    | inr (entry, quiet) ↦ λ is. not_entry (entry ∙ ap some is)
  ]

  Joined-Inside :
      (b1 : Barrier) (ebt : ℕ) (t0 : Task)
      → ((r : ℕ) → Keeps cid b.tasks b1.tasks r)
      → b1.exit_barrier_tasks ≡ b.exit_barrier_tasks
      → (b.entry_barrier_task ≡ some p → b1.entry_barrier_task ≡ some p)
      → b1.tasks ebt ≡ some t0
      → Joined b1 other ebt q b' a t0
      → Inside cid p b
      → Inside cid p b'
  Joined-Inside b1 ebt t0 keeps exits entry at_e h i =
      Inside-kept cid p b b' (kept p (apart_from i))
        (All-with (λ r. r ≢ other) (Keeps cid b.tasks b'.tasks) kept b.exit_barrier_tasks apart)
        (h.exits ∙ exits) (λ e. h.entry ∙ entry e) i
    where
      kept : (r : ℕ) → r ≢ other → Keeps cid b.tasks b'.tasks r
      kept r ne t at_r =
          let (t1, at1, preds1, succs1) = keeps r t at_r in
          let (t2, at2, preds2, succs2) = Joined-Keeps b1 ebt t0 at_e h r ne t1 at1 in
          (t2, at2, preds2 ∙ preds1, succs2 ∙ succs1)

  Keeps-refl : (r : ℕ) → Keeps cid b.tasks b.tasks r
  Keeps-refl r t at_r = (t, at_r, refl, refl)

  Keeps-begun : (r : ℕ) → Keeps cid b.tasks (begun junk fresh addr a b).tasks r
  Keeps-begun r t at_r =
      (t, assign_other b.tasks fresh r _ (λ is. absurd (cc (is, at_r, unused))) ∙ at_r, refl, refl)

  other_old : other ≢ fresh
  other_old is = absurd (cc (at, unused, is))

  -- `onEnter` of a context leaves another one that is inside there.
  pub on_enter-Inside :
      on_enter junk fresh other time addr b ≡ ok (q, b') → Inside cid p b → Inside cid p b'
  unfolding on_enter expect ◌>>=◌
  on_enter-Inside e i =
      let (o, found, entered) = >>=-eq-ok _ _ (rw at at e) in
      by_case o (exit_to_join-Joins _ b.tasks b.exit_barrier_tasks o found) entered
    where
      enter : ℕ × Barrier → Result (ℕ × Barrier)
      enter r = join_entry other time r.0 r.1

      by_entry : enter (entry_task junk fresh addr a b) ≡ ok (q, b') → Inside cid p b'
      by_entry e = elim (Option-cases b.entry_barrier_task) [
        | inl nobody ↦
            let b1 = begun junk fresh addr a b in
            let e' : join_entry other time fresh b1 ≡ ok (q, b') =
              ap enter (sym (entry_task-none junk fresh addr a b nobody)) ∙ e in
            let (t0, at_e) = join_entry-found other time fresh b1 _ e' in
            Joined-Inside b1 fresh t0 Keeps-begun refl (λ h. absurd (cc (h, nobody))) at_e
              (join_entry-Joined other time fresh q b1 b' a t0 other_old
                (assign_other b.tasks fresh other _ (λ is. other_old (sym is)) ∙ at) at_e e')
              i
        | inr (r, entry) ↦
            let e' : join_entry other time r b ≡ ok (q, b') =
              ap enter (sym (entry_task-some junk fresh addr r a b entry)) ∙ e in
            let (t0, at_e) = join_entry-found other time r b _ e' in
            Joined-Inside b r t0 Keeps-refl refl (λ h. h) at_e
              (join_entry-Joined other time r q b b' a t0
                (λ is. not_entry (entry ∙ ap some (sym is))) at at_e e')
              i
      ]

      by_case :
          (o : Option ℕ)
          → Joins (get_context_id a.task_id) b.tasks b.exit_barrier_tasks o
          → (elim o [
            | some ebt ↦ join_exit other time ebt b
            | none ↦ enter (entry_task junk fresh addr a b)
          ])
            ≡ ok (q, b')
          → Inside cid p b'
      by_case none j entered = by_entry entered
      by_case (some ebt) j entered =
          let (t0, at_e) = join_exit-found other time ebt b _ entered in
          let ne = Joins-All _ b.tasks (λ r. r ≢ other) b.exit_barrier_tasks ebt j apart in
          Joined-Inside b ebt t0 Keeps-refl refl (λ h. h) at_e
            (join_exit-Joined other time ebt q b b' a t0 (λ is. ne (sym is)) at at_e entered) i

-- What can happen while context `cid` is inside of the barrier `p`: tasks of other contexts enter,
-- tasks leave, none of which finishes `p`, and the tasks change otherwise, where `cid` neither
-- joins nor leaves the predecessors or the successors of a barrier.
pub data Meanwhile (cid p : ℕ) : Barrier → Barrier → Type 0 where
  rest : (b : Barrier) → Meanwhile cid p b b
  enters :
      (b b1 b2 : Barrier) (junk fresh other time addr q : ℕ) (a : Task)
      → Meanwhile cid p b b1
      → b1.tasks other ≡ some a
      → get_context_id a.task_id ≢ cid
      → b1.tasks fresh ≡ none
      → All (λ r. r ≢ other) b1.exit_barrier_tasks
      → b1.entry_barrier_task ≢ some other
      → on_enter junk fresh other time addr b1 ≡ ok (q, b2)
      → Meanwhile cid p b b2
  leaves :
      (b b1 b2 : Barrier) (other time q : ℕ) (finished : Bool)
      → Meanwhile cid p b b1
      → on_exit other time b1 ≡ ok ((q, finished), b2)
      → (finished ≡ true → q ≢ p)
      → Meanwhile cid p b b2
  works :
      (b b1 : Barrier) (tasks : Table Task)
      → Meanwhile cid p b b1
      → Keeps cid b1.tasks tasks p
      → All (Keeps cid b1.tasks tasks) b1.exit_barrier_tasks
      → Meanwhile cid p b (record b1 { tasks = tasks })

pub Meanwhile-Inside :
    (cid p : ℕ) (b b' : Barrier) → Meanwhile cid p b b' → Inside cid p b → Inside cid p b'
Meanwhile-Inside cid p b b' (rest b0) i = i
Meanwhile-Inside cid p b b'
      (enters b0 b1 b2 junk fresh other time addr q a m at foreign unused apart not_entry e) i =
    on_enter-Inside cid p junk fresh other time addr q b1 b2 a at foreign unused apart not_entry e
      (Meanwhile-Inside cid p b b1 m i)
Meanwhile-Inside cid p b b' (leaves b0 b1 b2 other time q finished m e ne) i =
    on_exit-Inside cid p other time q finished b1 b2 e ne (Meanwhile-Inside cid p b b1 m i)
Meanwhile-Inside cid p b b' (works b0 b1 tasks m k ks) i =
    Inside-kept cid p b1 (record b1 { tasks = tasks }) k ks refl (λ h. h)
      (Meanwhile-Inside cid p b b1 m i)
