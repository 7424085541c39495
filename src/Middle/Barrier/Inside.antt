-- ===== src/Middle/Barrier/Inside.antt =====
-- A context that has arrived at a barrier and not left it: what `onExit` of middle/BarrierWrapper.cpp
-- does for it, and which changes leave it inside.
use syncd_sim.Base.{
  ℕ, ◌+◌, Bool, true, false, not, ◌&&◌, List, [], ◌∷◌, ◌++◌, ◌==◌, length, none, some, Table,
  assign, ◌≡◌, refl, ◌∙◌, arith, All, Bool-cases, ◌⊎◌, inl, inr,
}
use syncd_sim.Base.Effects.{ok}
use syncd_sim.Base.Effects.Results.{◌>>=◌, check, expect}
use syncd_sim.TaskLib.Ids.{get_context_id}
use syncd_sim.TaskLib.Record.{Task}
use syncd_sim.Middle.Barrier.{
  Barrier, update, has_context, exit_loop, exit_to_leave, Exit, on_exit, open_exit, close_exit,
  without,
}

pub close_exit-finds :
    (p : ℕ) (b : Barrier) (t : Task)
    → b.tasks p ≡ some t
    → (finished : Bool) × (b' : Barrier) × (close_exit p b ≡ ok ((p, finished), b'))
unfolding close_exit expect ◌>>=◌
close_exit-finds p b t at = elim (Bool-cases (length t.predecessors == 1 + length t.successors)) [
  | inl all ↦
      (true, record b { exit_barrier_tasks = without p b.exit_barrier_tasks }, rw (at, all) refl)
  | inr some_stay ↦ (false, b, rw (at, some_stay) refl)
]

-- The ways through `onExit`.
module _ (departing exit_time p : ℕ) (b : Barrier) (d : Task)
    (at : b.tasks departing ≡ some d) where
  pub on_exit-some :
      exit_to_leave (get_context_id d.task_id) b.tasks b.exit_barrier_tasks ≡ ok (some p)
      → on_exit departing exit_time b ≡ close_exit p b
  unfolding on_exit expect ◌>>=◌
  on_exit-some found = rw (at, found) refl

  pub on_exit-none :
      (b1 : Barrier)
      → exit_to_leave (get_context_id d.task_id) b.tasks b.exit_barrier_tasks ≡ ok none
      → open_exit (get_context_id d.task_id) exit_time b ≡ ok (p, b1)
      → on_exit departing exit_time b ≡ close_exit p b1
  unfolding on_exit expect ◌>>=◌
  on_exit-none b1 absent opens = rw (at, absent, opens) refl

-- What `onExit` makes of a barrier that was being entered.
abbrev pub opened : ℕ → ℕ → Task → Barrier → Barrier
opened exit_time p e b = record {
  tasks = assign b.tasks p (record e { end_time = exit_time });
  entry_barrier_task = none;
  exit_barrier_tasks = b.exit_barrier_tasks ++ (p ∷ []);
}

pub open_exit-opened :
    (cid exit_time p : ℕ) (b : Barrier) (e : Task)
    → b.entry_barrier_task ≡ some p
    → b.tasks p ≡ some e
    → has_context cid e.predecessors ≡ true
    → open_exit cid exit_time b ≡ ok (p, opened exit_time p e b)
unfolding open_exit update expect check ◌>>=◌
open_exit-opened cid exit_time p b e entry at arrived = rw (entry, at, arrived) refl

-- What a context can do that is inside of a barrier.
abbrev pub Leaves : ℕ → ℕ → ℕ → Barrier → Type 0
Leaves departing exit_time p b =
    (finished : Bool) × (b' : Barrier) × (on_exit departing exit_time b ≡ ok ((p, finished), b'))

module _ (cid : ℕ) where
  -- The context has left the barrier if it has arrived there.
  abbrev pub Quiet : Table Task → ℕ → Type 0
  Quiet T q =
      (t : Task) × (T q ≡ some t) × (has_context cid t.successors ≡ has_context cid t.predecessors)

module _ (cid p : ℕ) where
  -- The barrier is in the list, and those before it are left.
  abbrev pub Found : Table Task → List ℕ → Type 0
  Found T [] = ⊥
  Found T (q ∷ qs) = (q ≡ p) ⊎ (Quiet cid T q × Found T qs)

  pub record Here (T : Table Task) : Type 0 where
    pub task : Task
    pub at : T p ≡ some task
    pub arrived : has_context cid task.predecessors ≡ true
    pub stays : has_context cid task.successors ≡ false

  -- The context has arrived at the barrier, which is being left or is still being entered, and has
  -- not left it; and it has left all older ones.
  pub record Inside (b : Barrier) : Type 0 where
    pub here : Here b.tasks
    pub place :
        Found b.tasks b.exit_barrier_tasks
        ⊎ ((b.entry_barrier_task ≡ some p) × All (Quiet cid b.tasks) b.exit_barrier_tasks)

  exit_loop-Found :
      (T : Table Task) (ps : List ℕ) (x : Exit)
      → Found T ps
      → Here T
      → exit_loop cid T x ps ≡ ok (record { exit_t = p; has_arrived = true; has_exited = false })
  unfolding exit_loop expect ◌>>=◌
  exit_loop-Found T [] x f h = elim f [ ]
  exit_loop-Found T (q ∷ qs) x (inl is) h = rw (is, h.at, h.arrived, h.stays) refl
  exit_loop-Found T (q ∷ qs) x (inr ((t, at, left), f)) h =
      elim (Bool-cases (has_context cid t.predecessors)) [
        | inl came ↦ rw (at, came, left ∙ came) (exit_loop-Found T qs _ f h)
        | inr away ↦ rw (at, away) (exit_loop-Found T qs _ f h)
      ]

  exit_loop-Quiet :
      (T : Table Task) (ps : List ℕ) (x : Exit)
      → All (Quiet cid T) ps
      → (x.has_arrived && not x.has_exited) ≡ false
      → (y : Exit) × (exit_loop cid T x ps ≡ ok y) × ((y.has_arrived && not y.has_exited) ≡ false)
  unfolding exit_loop expect ◌>>=◌
  exit_loop-Quiet T [] x a h = (x, refl, h)
  exit_loop-Quiet T (q ∷ qs) x ((t, at, left), a) h =
      elim (Bool-cases (has_context cid t.predecessors)) [
        | inl came ↦
            let (y, e, k) =
              exit_loop-Quiet T qs (record { exit_t = q; has_arrived = true; has_exited = true }) a
                refl in
            (y, rw (at, came, left ∙ came) e, k)
        | inr away ↦
            let (y, e, k) =
              exit_loop-Quiet T qs (record x { exit_t = q; has_arrived = false }) a refl in
            (y, rw (at, away) e, k)
      ]

  -- A context that is inside of the barrier leaves it.
  pub Inside-on_exit :
      (departing exit_time : ℕ) (b : Barrier) (d : Task)
      → Inside b
      → b.tasks departing ≡ some d
      → get_context_id d.task_id ≡ cid
      → Leaves departing exit_time p b
  unfolding exit_to_leave ◌>>=◌
  Inside-on_exit departing exit_time b d i at is = elim i.place [
    | inl f ↦
        let (finished, b', e) = close_exit-finds p b i.here.task i.here.at in
        (
          finished,
          b',
          on_exit-some departing exit_time p b d at (
                rw
                  (
                    is,
                    exit_loop-Found b.tasks b.exit_barrier_tasks
                        (record { exit_t = 0; has_arrived = false; has_exited = false }) f i.here,
                  )
                  refl)
              ∙ e,
        )
    | inr (entry, quiet) ↦
        let b1 = opened exit_time p i.here.task b in
        let set : b1.tasks p ≡ some (record i.here.task { end_time = exit_time }) = ground arith in
        let (finished, b', e) = close_exit-finds p b1 _ set in
        let (y, looped, gone) =
          exit_loop-Quiet b.tasks b.exit_barrier_tasks
            (record { exit_t = 0; has_arrived = false; has_exited = false }) quiet refl in
        (
          finished,
          b',
          on_exit-none departing exit_time p b d at b1 (rw (is, looped, gone) refl) (
                open_exit-opened _ exit_time p b i.here.task entry i.here.at (rw is i.here.arrived))
              ∙ e,
        )
  ]
