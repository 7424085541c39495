-- ===== src/TaskLib/Remove.antt =====
-- common/taskLib/Task.cpp, removeTask: a task is taken out of the graph, its predecessors joined to
-- its successors by their types. The vectors `p` and `s` are taken to share no task.
use syncd_sim.Base.{
  ℕ, Bool, true, false, ◌&&◌, List, [], ◌∷◌, ◌==◌, length, if◌then◌else◌, Option, none, some,
}
use syncd_sim.Base.Effects.{Result, ok, err, stray_memory}
use syncd_sim.Base.Effects.Results.{◌>>=◌}
use syncd_sim.TaskLib.Record.{Task, contains, replace_first}

-- Every task of the vector stands in the list of numbers.
unfoldable pub all_listed : List ℕ → List Task → Bool
all_listed ids [] = true
all_listed ids (t ∷ ts) = if contains t.task_id ids then all_listed ids ts else false

-- The two writes for a predecessor and a successor of the same type.
unfoldable pub join_pair : Task → Task → Task → Task × Task
join_pair rem it itt = (
  record it { successors = replace_first rem.task_id itt.task_id it.successors },
  record itt { predecessors = replace_first rem.task_id it.task_id itt.predecessors },
)

abbrev behind : Task → Option (Task × List Task) → Option (Task × List Task)
behind t none = none
behind t (some (it, rest)) = some (it, t ∷ rest)

-- What the search for a partner finds: the two vectors' new contents, or no partner. The source
-- compares the iterator into the successor's vector with the end of the predecessor's, so where
-- the successor does not name the task it writes past the end.
unfoldable pub find_partner : Task → Task → List Task → Result (Option (Task × List Task))
find_partner rem it [] = ok none
find_partner rem it (itt ∷ rest) =
    elim (it.type == itt.type && contains rem.task_id it.successors) [
      | true ↦
          if contains rem.task_id itt.predecessors
          then ok (some ((join_pair rem it itt).0, (join_pair rem it itt).1 ∷ rest))
          else err stray_memory
      | false ↦ do later ← find_partner rem it rest; ok (behind itt later)
    ]

-- The loop over the predecessors: whether all found a partner, and the two vectors.
unfoldable pub join_all : Task → List Task → List Task → Result (Bool × List Task × List Task)
join_all rem [] ss = ok (true, [], ss)
join_all rem (it ∷ ps) ss = do
  found ← find_partner rem it ss
  elim found [
    | none ↦ ok (false, it ∷ ps, ss)
    | some (it', ss') ↦ do (matched, ps', ss'') ← join_all rem ps ss'; ok (matched, it' ∷ ps', ss'')
  ]

-- `removeTask`
unfoldable pub remove_task : Task → List Task → List Task → Result (Bool × List Task × List Task)
remove_task rem ps ss =
    if length rem.predecessors == length ps
      && all_listed rem.predecessors ps
      && length rem.successors == length ss
      && all_listed rem.successors ss
      && length ps == length ss
    then join_all rem ps ss
    else ok (false, ps, ss)
