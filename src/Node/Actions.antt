-- ===== src/Node/Actions.antt =====
-- `populateMemActionQueue` of backend/Simulator/processor.cpp: which actions a task starts with.
use syncd_sim.Base.{
  ℕ, zero, suc, ◌+◌, ◌*◌, ◌≤◌, ◌≡◌, refl, ap, ◌∙◌, true, false, List, [], ◌∷◌, ◌++◌, arith, length,
  length-append, ◌==◌, if◌then◌else◌,
}
use syncd_sim.Types.{MemoryAction, iter_cap}
use syncd_sim.Node.{split_action, populate}

abbrev pub take {ℓ} : {A : Type ℓ} → ℕ → List A → List A
take zero xs = []
take (suc n) [] = []
take (suc n) (x ∷ xs) = x ∷ take n xs

-- The actions of all the members, one after another.
abbrev pub split_all : List MemoryAction → List MemoryAction
split_all [] = []
split_all (ma ∷ mas) = split_action ma ++ split_all mas

populate-take :
    (k index : ℕ) (mas : List MemoryAction)
    → index + suc k ≡ iter_cap
    → populate index mas ≡ split_all (take (suc k) mas)
unfolding populate
populate-take k index [] h = refl
populate-take zero index (ma ∷ mas) h = ap (λ r. split_action ma ++ r) (stops (ground arith))
  where
    stops :
        (suc index == iter_cap) ≡ true
        → (if suc index == iter_cap then [] else populate (suc index) mas) ≡ []
    stops e = rw e refl
populate-take (suc k) index (ma ∷ mas) h =
    ap (λ r. split_action ma ++ r)
      (goes_on (ground arith) ∙ populate-take k (suc index) mas (omega (arith, h)))
  where
    goes_on :
        (suc index == iter_cap) ≡ false
        → (if suc index == iter_cap then [] else populate (suc index) mas)
          ≡ populate (suc index) mas
    goes_on e = rw e refl

-- The actions that a task starts with are those that its first 1000 memory operations are split
-- into, one operation after another.
pub populate-split_all : (mas : List MemoryAction) → populate 0 mas ≡ split_all (take iter_cap mas)
populate-split_all mas = populate-take 999 0 mas (omega arith)

split_action_le : (ma : MemoryAction) → length (split_action ma) ≤ 2
unfolding split_action
split_action_le ma = ground arith

split_all_le : (n : ℕ) (mas : List MemoryAction) → length (split_all (take n mas)) ≤ 2 * n
split_all_le zero mas = omega arith
split_all_le (suc n) [] = omega arith
split_all_le (suc n) (ma ∷ mas) = omega (
  arith,
  length-append (split_action ma) (split_all (take n mas)),
  split_action_le ma,
  split_all_le n mas,
)

-- A task starts with at most 2000 actions, for which the queue has room.
pub populate_le : (mas : List MemoryAction) → length (populate 0 mas) ≤ 2000
populate_le mas = omega (arith, ap length (populate-split_all mas), split_all_le iter_cap mas)
