-- ===== src/Examples/Barriers.antt =====
-- Barriers at concrete inputs (middle/BarrierWrapper.cpp).
use syncd_sim.Base.{
  ℕ, ◌+◌, ◌*◌, ◌^◌, Bool, false, [], ◌∷◌, none, some, ◌≡◌, refl, arith, ◌==◌, if◌then◌else◌, subst,
  some_injective,
}
use syncd_sim.Base.Effects.{Result, ok, err}
use syncd_sim.Base.Effects.Results
use syncd_sim.Base.Effects.Results.{check, expect}
use syncd_sim.TaskLib.Record.{Task, new_task, add_successor, add_predecessor}
use syncd_sim.Middle.Barrier.{
  Barrier, update, has_context, enter_loop, exit_to_join, exit_to_leave, exit_loop, close_exit,
  join_exit, on_enter, on_exit,
}
use syncd_sim.Middle.Barrier.Search.{IsOutside}
use syncd_sim.Middle.Barrier.Meanwhile.{rest, leaves}
use syncd_sim.Middle.Barrier.Leaves.{on_enter-on_exit}

-- A barrier that contexts 1 and 2 have reached and context 1 has left.
abbrev open_barrier : Task
open_barrier = record (new_task (2 ^ 32 + 5) 2) {
  predecessors = (2 ^ 32 + 4) ∷ ((2 * 2 ^ 32 + 7) ∷ []);
  successors = (2 ^ 32 + 6) ∷ [];
}

-- The task of context 0 that comes late.
abbrev late_task : Task
late_task = new_task 3 0

-- The task of context 2 that leaves.
abbrev leaving_task : Task
leaving_task = new_task (2 * 2 ^ 32 + 7) 0

abbrev one_open : Barrier
one_open = record {
  tasks = λ p.
      if p == 5
      then some late_task
      else if p == 6
      then some leaving_task
      else if p == 10
      then some open_barrier
      else none;
  entry_barrier_task = none;
  exit_barrier_tasks = 10 ∷ [];
}

abbrev barrier_of : Result (ℕ × Barrier) → Barrier
barrier_of (ok (p, b)) = b
barrier_of (err e) = one_open

abbrev late_in : Barrier
late_in = barrier_of (on_enter 0 20 5 77 64 one_open)

late_enters : on_enter 0 20 5 77 64 one_open ≡ ok (10, late_in)
unfolding on_enter exit_to_join enter_loop has_context join_exit update add_successor
    add_predecessor Results.◌>>=◌ expect
late_enters = refl

late_IsOutside : IsOutside 0 one_open.tasks one_open.exit_barrier_tasks
unfolding has_context
late_IsOutside = (
  λ t e.
      subst (λ (t : Task). has_context 0 t.successors ≡ has_context 0 t.predecessors)
        (some_injective e) refl,
  tt,
)

-- Context 2 leaves before context 0 does.
leaves_first : on_exit 6 80 late_in ≡ ok ((10, false), late_in)
unfolding on_enter on_exit exit_to_join exit_to_leave exit_loop close_exit enter_loop has_context
    join_exit update add_successor add_predecessor Results.◌>>=◌ expect
leaves_first = refl

abbrev late_task_in : Task
late_task_in = record late_task { successors = (2 ^ 32 + 5) ∷ []; end_time = 77 }

late_still : late_in.tasks 5 ≡ some late_task_in
unfolding on_enter exit_to_join enter_loop has_context join_exit update add_successor
    add_predecessor Results.◌>>=◌ expect
late_still = refl

on_enter-on_exit_example :
    (finished : Bool) × (b : Barrier) × (on_exit 5 99 late_in ≡ ok ((10, finished), b))
on_enter-on_exit_example =
    on_enter-on_exit 0 20 5 77 64 10 one_open late_in late_task refl refl late_IsOutside
      ((λ e. absurd (omega (arith, e))), tt) (λ e. absurd (cc (e))) ((λ e. absurd (cc (e))), tt)
      (λ e t none_enters. absurd (cc (none_enters))) 5 99 late_in late_task_in late_enters
      (leaves late_in late_in late_in 6 80 10 false (rest late_in) leaves_first
        (λ h. absurd (cc (h))))
      late_still refl
