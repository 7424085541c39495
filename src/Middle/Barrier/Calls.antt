-- ===== src/Middle/Barrier/Calls.antt =====
-- The calls by which onEnter of middle/BarrierWrapper.cpp changes the two tasks.
use syncd_sim.Base.{
  ℕ, [], ◌∷◌, ◌++◌, some, Table, assign, ◌≡◌, ◌≢◌, sym, ap, ◌∙◌, subst, arith, All, some_injective,
}
use syncd_sim.Base.Effects.{Result, ok, ok_injective}
use syncd_sim.Base.Effects.Results.{>>=-eq-ok, expect-eq-ok}
use syncd_sim.TaskLib.Record.{Task, add_successor, add_predecessor}
use syncd_sim.Middle.Barrier.{update, set_end_time, set_start_time}

-- What a successful method call leaves.
pub update-parts :
    (p : ℕ) (method : Task → Result (Unit {0} × Task)) (tasks tasks' : Table Task)
    → update p method tasks ≡ ok tasks'
    → (t : Task) × (t' : Task) × (tasks p ≡ some t)
      × (method t ≡ ok (tt, t'))
      × (tasks' ≡ assign tasks p t')
unfolding update
update-parts p method tasks tasks' e =
    let (t, found, e1) = >>=-eq-ok _ _ e in
    let ((u, t'), called, made) = >>=-eq-ok _ _ e1 in
    (t, t', expect-eq-ok _ _ found, called, sym (ok_injective made))

pub add_successor-parts :
    (s : ℕ) (t t' : Task)
    → add_successor s t ≡ ok (tt, t')
    → (t'.task_id ≡ t.task_id) × (t'.predecessors ≡ t.predecessors)
unfolding add_successor
add_successor-parts s t t' e = (ground (arith, e), ground (arith, e))

pub add_predecessor-parts :
    (s : ℕ) (t t' : Task)
    → add_predecessor s t ≡ ok (tt, t')
    → (t'.predecessors ≡ t.predecessors ++ (s ∷ [])) × (t'.successors ≡ t.successors)
unfolding add_predecessor
add_predecessor-parts s t t' e = (ground (arith, e), ground (arith, e))

-- The task at `arriving`, with the number of `a`, has entered the barrier at `p`, which was `t0`.
pub record Entered (tasks tasks' : Table Task) (arriving p : ℕ) (a t0 : Task) : Type 0 where
  pub same : (q : ℕ) → q ≢ p → All (λ r. q ≢ r) (arriving ∷ []) → tasks' q ≡ tasks q
  pub after : Task
  pub at : tasks' p ≡ some after
  pub predecessors : after.predecessors ≡ t0.predecessors ++ (a.task_id ∷ [])
  pub successors : after.successors ≡ t0.successors
  pub still : Task
  pub at_arriving : tasks' arriving ≡ some still
  pub number : still.task_id ≡ a.task_id

-- The tables of `join_exit`, one after another.
pub exit_tables :
    (arriving ebt : ℕ) (T : Table Task) (a t0 s s' t t' v v' : Task)
    → arriving ≢ ebt
    → T arriving ≡ some a
    → T ebt ≡ some t0
    → T arriving ≡ some s
    → (s'.task_id ≡ s.task_id) × (s'.predecessors ≡ s.predecessors)
    → assign T arriving s' ebt ≡ some t
    → (t'.predecessors ≡ t.predecessors ++ (a.task_id ∷ [])) × (t'.successors ≡ t.successors)
    → assign (assign T arriving s') ebt t' arriving ≡ some v
    → v'.task_id ≡ v.task_id
    → Entered T (assign (assign (assign T arriving s') ebt t') arriving v') arriving ebt a t0
exit_tables arriving ebt T a t0 s s' t t' v v' apart at_a at_e at_s succ at_t pred at_v end =
    record {
      same = λ q ne other. let ne' = other.0 in ground (arith, ne, ne');
      after = t';
      at = ground (arith, apart);
      predecessors =
          let is : t ≡ t0 = ground (arith, apart, at_t, at_e) in
          pred.0 ∙ ap (λ (x : Task). x.predecessors ++ (a.task_id ∷ [])) is;
      successors =
          let is : t ≡ t0 = ground (arith, apart, at_t, at_e) in
          pred.1 ∙ ap (λ (x : Task). x.successors) is;
      still = v';
      at_arriving = ground arith;
      number =
          let is_s : s' ≡ v = ground (arith, apart, at_v) in
          let is_a : s ≡ a = some_injective (sym at_s ∙ at_a) in
          end
          ∙ ap (λ (x : Task). x.task_id) (sym is_s)
          ∙ succ.0
          ∙ ap (λ (x : Task). x.task_id) is_a;
    }

-- And those of `join_entry`.
pub entry_tables :
    (arriving ebt : ℕ) (T : Table Task) (a t0 r r' s s' v v' t t' : Task)
    → arriving ≢ ebt
    → T arriving ≡ some a
    → T ebt ≡ some t0
    → T ebt ≡ some r
    → (r'.predecessors ≡ r.predecessors) × (r'.successors ≡ r.successors)
    → assign T ebt r' arriving ≡ some s
    → (s'.task_id ≡ s.task_id) × (s'.predecessors ≡ s.predecessors)
    → assign (assign T ebt r') arriving s' arriving ≡ some v
    → v'.task_id ≡ v.task_id
    → assign (assign (assign T ebt r') arriving s') arriving v' ebt ≡ some t
    → (t'.predecessors ≡ t.predecessors ++ (a.task_id ∷ [])) × (t'.successors ≡ t.successors)
    → Entered T
        (assign (assign (assign (assign T ebt r') arriving s') arriving v') ebt t')
        arriving
        ebt
        a
        t0
entry_tables arriving ebt T a t0 r r' s s' v v' t t' apart at_a at_e at_r start at_s succ at_v end
      at_t pred =
    record {
      same = λ q ne other. let ne' = other.0 in ground (arith, ne, ne');
      after = t';
      at = ground arith;
      predecessors =
          pred.0
          ∙ ap (λ xs. xs ++ (a.task_id ∷ []))
              (ap (λ (x : Task). x.predecessors) is_t
                ∙ start.0
                ∙ ap (λ (x : Task). x.predecessors) is_r);
      successors =
          pred.1
          ∙ ap (λ (x : Task). x.successors) is_t
          ∙ start.1
          ∙ ap (λ (x : Task). x.successors) is_r;
      still = v';
      at_arriving = ground (arith, apart);
      number =
          end
          ∙ ap (λ (x : Task). x.task_id) (sym is_v)
          ∙ succ.0
          ∙ ap (λ (x : Task). x.task_id) is_s;
    }
  where
    is_t : t ≡ r'
    is_t = ground (arith, apart, at_t)

    is_r : r ≡ t0
    is_r = some_injective (sym at_r ∙ at_e)

    is_v : s' ≡ v
    is_v = ground (arith, at_v)

    is_s : s ≡ a
    is_s = ground (arith, apart, at_s, at_a)

pub set_end_time-parts :
    (time : ℕ) (t t' : Task) → set_end_time time t ≡ ok (tt, t') → t'.task_id ≡ t.task_id
set_end_time-parts time t t' e = ground (arith, e)

pub set_start_time-parts :
    (time : ℕ) (t t' : Task)
    → set_start_time time t ≡ ok (tt, t')
    → (t'.predecessors ≡ t.predecessors) × (t'.successors ≡ t.successors)
set_start_time-parts time t t' e = (ground (arith, e), ground (arith, e))

pub exit_calls :
    (arriving time ebt succ : ℕ) (T T1 T2 T3 : Table Task) (a t0 : Task)
    → arriving ≢ ebt
    → T arriving ≡ some a
    → T ebt ≡ some t0
    → update arriving (add_successor succ) T ≡ ok T1
    → update ebt (add_predecessor a.task_id) T1 ≡ ok T2
    → update arriving (set_end_time time) T2 ≡ ok T3
    → Entered T T3 arriving ebt a t0
exit_calls arriving time ebt succ T T1 T2 T3 a t0 apart at_a at_e call1 call2 call3 =
    let (s, s', at_s, made1, is1) = update-parts _ _ _ _ call1 in
    let (t, t', at_t, made2, is2) = update-parts _ _ _ _ (rw is1 at call2) in
    let (v, v', at_v, made3, is3) = update-parts _ _ _ _ (rw is2 at call3) in
    subst (λ T3. Entered T T3 arriving ebt a t0) (sym is3)
      (exit_tables arriving ebt T a t0 s s' t t' v v' apart at_a at_e at_s
        (add_successor-parts succ s s' made1) at_t (add_predecessor-parts a.task_id t t' made2) at_v
        (set_end_time-parts time v v' made3))

pub entry_calls :
    (arriving time ebt start succ : ℕ) (T T1 T2 T3 T4 : Table Task) (a t0 : Task)
    → arriving ≢ ebt
    → T arriving ≡ some a
    → T ebt ≡ some t0
    → update ebt (set_start_time start) T ≡ ok T1
    → update arriving (add_successor succ) T1 ≡ ok T2
    → update arriving (set_end_time time) T2 ≡ ok T3
    → update ebt (add_predecessor a.task_id) T3 ≡ ok T4
    → Entered T T4 arriving ebt a t0
entry_calls arriving time ebt start succ T T1 T2 T3 T4 a t0 apart at_a at_e call1 call2 call3
      call4 =
    let (r, r', at_r, made1, is1) = update-parts _ _ _ _ call1 in
    let (s, s', at_s, made2, is2) = update-parts _ _ _ _ (rw is1 at call2) in
    let (v, v', at_v, made3, is3) = update-parts _ _ _ _ (rw is2 at call3) in
    let (t, t', at_t, made4, is4) = update-parts _ _ _ _ (rw is3 at call4) in
    subst (λ T4. Entered T T4 arriving ebt a t0) (sym is4)
      (entry_tables arriving ebt T a t0 r r' s s' v v' t t' apart at_a at_e at_r
        (set_start_time-parts start r r' made1) at_s (add_successor-parts succ s s' made2) at_v
        (set_end_time-parts time v v' made3) at_t (add_predecessor-parts a.task_id t t' made4))
