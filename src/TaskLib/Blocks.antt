-- ===== src/TaskLib/Blocks.antt =====
-- What loops over the collections of common/taskLib/Task.hpp visit.
use syncd_sim.Base.{
  ℕ, zero, suc, ◌-◌, ◌≤◌, Bool, List, [], ◌∷◌, ◌++◌, length, if◌then◌else◌, ◌≡◌, refl, ap, sym, ◌∙◌,
  arith, Bool-cases, inl, inr,
}
use syncd_sim.TaskLib.Actions.{is_mem_op, is_memory_action, is_basic_block_action}
use syncd_sim.TaskLib.Views.{
  skip, advance, iterators, collection, values, range, get_mem_ops, get_memory_actions,
  get_basic_block_actions, block_mem_ops, block_memory_actions, all_of,
}

none_taken : (n : ℕ) → suc n - suc n ≡ 0
none_taken n = omega arith

one_more : (n k : ℕ) → k ≤ n → suc n - k ≡ suc (n - k)
one_more n k h = omega arith

module _ (wanted : ℕ → Bool) where
  -- The members of a list that pass a test, in order.
  unfoldable pub select : List ℕ → List ℕ
  select [] = []
  select (a ∷ rest) = if wanted a then a ∷ select rest else select rest

  pub select-append : (xs ys : List ℕ) → select (xs ++ ys) ≡ select xs ++ select ys
  unfolding select
  select-append [] ys = refl
  select-append (x ∷ xs) ys = elim (Bool-cases (wanted x)) [
    | inl h ↦ rw h (ap (λ zs. x ∷ zs) (select-append xs ys))
    | inr h ↦ rw h (select-append xs ys)
  ]

  iterators-nil : (rounds : ℕ) → iterators wanted rounds [] ≡ []
  unfolding iterators
  iterators-nil zero = refl
  iterators-nil (suc rounds) = refl

  values-iterators :
      (rounds : ℕ) (xs : List ℕ)
      → length xs ≤ rounds
      → values (iterators wanted rounds (skip wanted xs)) ≡ select xs
  unfolding values iterators select skip advance
  values-iterators rounds [] h = rw iterators-nil
  values-iterators zero (x ∷ xs) h = absurd (omega arith)
  values-iterators (suc rounds) (x ∷ xs) h = elim (Bool-cases (wanted x)) [
    | inl e ↦ rw e (ap (λ zs. x ∷ zs) (values-iterators rounds xs (omega arith)))
    | inr e ↦ rw e (values-iterators (suc rounds) xs (omega arith))
  ]

  pub values-collection : (xs : List ℕ) → values (collection wanted xs) ≡ select xs
  unfolding collection
  values-collection xs = values-iterators (length xs) xs (omega arith)

  length-skip : (xs : List ℕ) → length (skip wanted xs) ≤ length xs
  unfolding skip
  length-skip [] = omega arith
  length-skip (x ∷ xs) = ground (arith, length-skip xs)

  -- A range up to where the iterator goes next, and what is left there, are the whole.
  range-skip : (xs : List ℕ) → range xs (skip wanted xs) ++ skip wanted xs ≡ xs
  unfolding range skip
  range-skip [] = refl
  range-skip (x ∷ xs) = elim (Bool-cases (wanted x)) [
    | inl e ↦ rw e (rw (none_taken (length xs)))
    | inr e ↦
        rw e (rw (one_more (length xs) _ (length-skip xs)) (ap (λ zs. x ∷ zs) (range-skip xs)))
  ]

  -- The same from an iterator that has not reached the end.
  range-advance :
      (x : ℕ) (xs : List ℕ)
      → range (x ∷ xs) (advance wanted (x ∷ xs)) ++ advance wanted (x ∷ xs) ≡ x ∷ xs
  unfolding range advance
  range-advance x xs =
      rw (one_more (length xs) _ (length-skip xs))
        (ap (λ zs. x ∷ zs) (unfold range in range-skip xs))

-- A collection over a range, cut out for each basic block, against the actions themselves.
module _ (f : List ℕ → List ℕ) (kept : ℕ → Bool)
    (exact : (xs : List ℕ) → f xs ≡ select kept xs) where
  abbrev of_block : List ℕ → List ℕ
  of_block it = f (range it (advance is_basic_block_action it))

  abbrev from_block : List ℕ → List ℕ
  from_block = skip is_basic_block_action

  -- One block: its part of the actions, and the parts of the blocks behind it.
  one_block :
      (rounds x : ℕ) (xs : List ℕ)
      → all_of of_block (iterators is_basic_block_action rounds (from_block xs))
        ≡ select kept (from_block xs)
      → all_of of_block (iterators is_basic_block_action (suc rounds) (x ∷ xs))
        ≡ select kept (x ∷ xs)
  unfolding all_of iterators advance
  one_block rounds x xs ih =
      ap (λ ys. ys ++ all_of of_block (iterators is_basic_block_action rounds next)) (exact part)
      ∙ ap (λ ys. select kept part ++ ys) ih
      ∙ sym (select-append kept part next)
      ∙ ap (select kept) (range-advance is_basic_block_action x xs)
    where
      next : List ℕ
      next = advance is_basic_block_action (x ∷ xs)

      part : List ℕ
      part = range (x ∷ xs) next

  all_of-iterators :
      (rounds : ℕ) (xs : List ℕ)
      → length xs ≤ rounds
      → all_of of_block (iterators is_basic_block_action rounds (from_block xs))
        ≡ select kept (from_block xs)
  unfolding skip
  all_of-iterators rounds [] h =
      rw (iterators-nil is_basic_block_action rounds) (unfold all_of select in refl)
  all_of-iterators zero (x ∷ xs) h = absurd (omega arith)
  all_of-iterators (suc rounds) (x ∷ xs) h = elim (Bool-cases (is_basic_block_action x)) [
    | inl e ↦ rw e (one_block rounds x xs (all_of-iterators rounds xs (omega arith)))
    | inr e ↦ rw e (all_of-iterators (suc rounds) xs (omega arith))
  ]

  all_of-blocks :
      (actions : List ℕ)
      → all_of of_block (get_basic_block_actions actions) ≡ select kept (from_block actions)
  unfolding get_basic_block_actions collection
  all_of-blocks actions = all_of-iterators (length actions) actions (omega arith)

-- The iterators over a task's memory operations and memory actions give these actions in order;
-- and the memory operations of its basic blocks, one block after another, are those of the actions
-- from the first basic block on, as are the memory actions.
pub block_mem_ops-all :
    (actions : List ℕ)
    → (get_mem_ops actions ≡ select is_mem_op actions)
      × (all_of block_mem_ops (get_basic_block_actions actions)
          ≡ get_mem_ops (skip is_basic_block_action actions))
      × (get_memory_actions actions ≡ select is_memory_action actions)
      × (all_of block_memory_actions (get_basic_block_actions actions)
          ≡ get_memory_actions (skip is_basic_block_action actions))
unfolding get_mem_ops get_memory_actions block_mem_ops block_memory_actions
block_mem_ops-all actions = (
  values-collection is_mem_op actions,
  all_of-blocks _ is_mem_op (values-collection is_mem_op) actions
      ∙ sym (values-collection is_mem_op (skip is_basic_block_action actions)),
  values-collection is_memory_action actions,
  all_of-blocks _ is_memory_action (values-collection is_memory_action) actions
      ∙ sym (values-collection is_memory_action (skip is_basic_block_action actions)),
)
