-- ===== src/Middle/Barrier/Entered.antt =====
-- What onEnter of middle/BarrierWrapper.cpp makes of the tasks.
use syncd_sim.Base.{ℕ, true, none, some, Table, assign, ◌≡◌, ◌≢◌, refl, subst}
use syncd_sim.Base.Effects.{Result, ok, ok_injective}
use syncd_sim.Base.Effects.Results.{◌>>=◌, expect, >>=-eq-ok, expect-eq-ok}
use syncd_sim.TaskLib.Ids.{get_next}
use syncd_sim.TaskLib.Record.{Task, new_task, record_mem_op_action, task_type_barrier}
use syncd_sim.Middle.Barrier.{Barrier, join_exit, join_entry, entry_task}
use syncd_sim.Middle.Barrier.Calls.{exit_calls, entry_calls, Entered}

-- What a call of `onEnter` that joins the barrier at `ebt` leaves.
pub record Joined (b : Barrier) (arriving ebt p : ℕ) (b' : Barrier) (a t0 : Task) : Type 0 where
  pub entered : Entered b.tasks b'.tasks arriving ebt a t0
  pub is : p ≡ ebt
  pub exits : b'.exit_barrier_tasks ≡ b.exit_barrier_tasks
  pub entry : b'.entry_barrier_task ≡ b.entry_barrier_task

module _ (arriving time ebt p : ℕ) (b b' : Barrier) (a t0 : Task) (apart : arriving ≢ ebt)
    (at_a : b.tasks arriving ≡ some a) (at_e : b.tasks ebt ≡ some t0) where
  pub joined :
      (T : Table Task)
      → Entered b.tasks T arriving ebt a t0
      → ◌≡◌ {A = Result (ℕ × Barrier)} (ok (ebt, record b { tasks = T })) (ok (p, b'))
      → Joined b arriving ebt p b' a t0
  joined T entered made =
      subst (λ (r : ℕ × Barrier). Joined b arriving ebt r.0 r.1 a t0) (ok_injective made)
        (record { entered = entered; is = refl; exits = refl; entry = refl })

  pub join_exit-Joined :
      join_exit arriving time ebt b ≡ ok (p, b') → Joined b arriving ebt p b' a t0
  unfolding join_exit expect ◌>>=◌
  join_exit-Joined e =
      let e1 = rw (at_a, at_e) at e in
      let (T1, call1, e2) = >>=-eq-ok _ _ e1 in
      let (T2, call2, e3) = >>=-eq-ok _ _ e2 in
      let (T3, call3, made) = >>=-eq-ok _ _ e3 in
      joined T3
        (exit_calls arriving time ebt _ b.tasks T1 T2 T3 a t0 apart at_a at_e call1 call2 call3)
        made

  pub join_entry-Joined :
      join_entry arriving time ebt b ≡ ok (p, b') → Joined b arriving ebt p b' a t0
  unfolding join_entry expect ◌>>=◌
  join_entry-Joined e =
      let e1 = rw (at_a, at_e) at e in
      let (T1, call1, e2) = >>=-eq-ok _ _ e1 in
      let (T2, call2, e3) = >>=-eq-ok _ _ e2 in
      let (T3, call3, e4) = >>=-eq-ok _ _ e3 in
      let (T4, call4, made) = >>=-eq-ok _ _ e4 in
      joined T4
        (entry_calls arriving time ebt _ _ b.tasks T1 T2 T3 T4 a t0 apart at_a at_e call1 call2
          call3 call4)
        made

pub join_entry-found :
    (arriving time ebt : ℕ) (b : Barrier) (r : ℕ × Barrier)
    → join_entry arriving time ebt b ≡ ok r
    → (t : Task) × (b.tasks ebt ≡ some t)
unfolding join_entry
join_entry-found arriving time ebt b r e =
    let (a, found_a, e1) = >>=-eq-ok _ _ e in
    let (t, found, e2) = >>=-eq-ok _ _ e1 in (t, expect-eq-ok _ _ found)

pub join_exit-found :
    (arriving time ebt : ℕ) (b : Barrier) (r : ℕ × Barrier)
    → join_exit arriving time ebt b ≡ ok r
    → (t : Task) × (b.tasks ebt ≡ some t)
unfolding join_exit
join_exit-found arriving time ebt b r e =
    let (a, found_a, e1) = >>=-eq-ok _ _ e in
    let (t, found, e2) = >>=-eq-ok _ _ e1 in (t, expect-eq-ok _ _ found)

pub entry_task-some :
    (junk fresh addr q : ℕ) (a : Task) (b : Barrier)
    → b.entry_barrier_task ≡ some q
    → entry_task junk fresh addr a b ≡ (q, b)
unfolding entry_task
entry_task-some junk fresh addr q a b e = rw e refl

-- The barrier after `entry_task` has made a task for it.
abbrev pub begun : ℕ → ℕ → ℕ → Task → Barrier → Barrier
begun junk fresh addr a b = record b {
  tasks =
      assign b.tasks fresh
        (record_mem_op_action junk true 8 addr (new_task (get_next a.task_id) task_type_barrier));
  entry_barrier_task = some fresh;
}

pub entry_task-none :
    (junk fresh addr : ℕ) (a : Task) (b : Barrier)
    → b.entry_barrier_task ≡ none
    → entry_task junk fresh addr a b ≡ (fresh, begun junk fresh addr a b)
unfolding entry_task
entry_task-none junk fresh addr a b e = rw e refl
