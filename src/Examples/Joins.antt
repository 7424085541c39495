-- ===== src/Examples/Joins.antt =====
-- Joins at concrete inputs (middle/Context.cpp).
use syncd_sim.Base.{
  ℕ, ◌+◌, ◌^◌, [], ◌∷◌, Option, none, some, ◌≡◌, refl, ◌==◌, length, if◌then◌else◌, empty_table,
}
use syncd_sim.Base.Effects.{Result, ok, err}
use syncd_sim.Base.Effects.Results
use syncd_sim.Base.Effects.Results.{check, expect}
use syncd_sim.TaskLib.Record.{Task, new_task}
use syncd_sim.Middle.Contexts.{
  TaskContext, get_child_join, child_exits, is_complete_join, find_address, succ_ℤ,
}
use syncd_sim.Middle.Joins.{Waiting, start, joins, exits, drop_one, among, is_complete_join-Waiting}

-- A context whose task 12, at the address 7, is a join.
abbrev join_task : Task
join_task = new_task 12 4

abbrev parent : TaskContext
parent = record {
  store = λ p. if p == 7 then some join_task else none;
  tasks = (12, 7) ∷ [];
  creator_map = empty_table;
  join_map = empty_table;
  join_count_map = empty_table;
  end_time = 0;
  current_time = 0;
}

abbrev context_of : Result TaskContext → TaskContext
context_of (ok c) = c
context_of (err e) = parent

abbrev context_after : Result (Option ℕ × TaskContext) → TaskContext
context_after (ok (r, c)) = c
context_after (err e) = parent

abbrev one_child : TaskContext
one_child = context_of (get_child_join 1 7 parent)

abbrev two_children : TaskContext
two_children = context_of (get_child_join 2 7 one_child)

abbrev one_exited : TaskContext
one_exited = context_after (child_exits (2 ^ 32 + 4) two_children)

runs :
    (get_child_join 1 7 parent ≡ ok one_child)
    × (get_child_join 2 7 one_child ≡ ok two_children)
    × (child_exits (2 ^ 32 + 4) two_children ≡ ok (some 7, one_exited))
    × (one_child.store 7 ≡ some join_task)
    × (two_children.store 7 ≡ some join_task)
unfolding get_child_join child_exits find_address Results.◌>>=◌ check expect succ_ℤ
runs = (refl, refl, refl, refl, refl)

one_waits : Waiting 7 12 (drop_one 1 (2 ∷ 1 ∷ [])) one_exited
unfolding among
one_waits =
    let (first, second, third, at1, at2) = runs in
    exits (2 ∷ 1 ∷ []) (2 ^ 32 + 4) join_task two_children one_exited
      (joins (1 ∷ []) 2 join_task one_child two_children
        (joins [] 1 join_task parent one_child (start parent refl) refl refl refl first) refl at1
        refl second)
      refl at2 refl third

is_complete_join-Waiting_example :
    (is_complete_join 12 one_exited).0 ≡ (length (drop_one 1 (2 ∷ 1 ∷ [])) == 0)
is_complete_join-Waiting_example =
    is_complete_join-Waiting 7 12 (drop_one 1 (2 ∷ 1 ∷ [])) one_exited one_waits
