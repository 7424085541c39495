-- ===== src/TaskLib/Views.antt =====
-- common/taskLib/Task.hpp and Task.cpp: the collections of memory operations, memory actions and
-- basic blocks of a task. An iterator is the list of the actions from its position to the end of
-- the collection.
use syncd_sim.Base.{ℕ, zero, suc, Bool, List, [], ◌∷◌, ◌++◌, length, tail, take, ◌-◌, if◌then◌else◌}
use syncd_sim.TaskLib.Actions.{is_mem_op, is_memory_action, is_basic_block_action}

module _ (wanted : ℕ → Bool) where
  -- `while (first != last && !wanted(first)) first++;` in the constructor of a collection
  unfoldable pub skip : List ℕ → List ℕ
  skip [] = []
  skip (a ∷ rest) = if wanted a then a ∷ rest else skip rest

  -- `operator++`: `do { ++it; } while (it != parent->last && !wanted(it));`
  unfoldable pub advance : List ℕ → List ℕ
  advance it = skip (tail it)

  -- The iterators of a loop over a collection, from a first one on; each round leaves fewer
  -- actions.
  unfoldable pub iterators : ℕ → List ℕ → List (List ℕ)
  iterators zero it = []
  iterators (suc rounds) [] = []
  iterators (suc rounds) (a ∷ rest) = (a ∷ rest) ∷ iterators rounds (advance (a ∷ rest))

  -- `begin()` and the iterators after it
  unfoldable pub collection : List ℕ → List (List ℕ)
  collection actions = iterators (length actions) (skip actions)

-- `*it` of each of these iterators
unfoldable pub values : List (List ℕ) → List ℕ
values [] = []
values ([] ∷ its) = values its
values ((a ∷ rest) ∷ its) = a ∷ values its

-- The actions from an iterator up to another one that is not before it.
unfoldable pub range : List ℕ → List ℕ → List ℕ
range it end = take (length it - length end) it

-- `getMemOps` and `getMemoryActions` of a task
unfoldable pub get_mem_ops : List ℕ → List ℕ
get_mem_ops actions = values (collection is_mem_op actions)

unfoldable pub get_memory_actions : List ℕ → List ℕ
get_memory_actions actions = values (collection is_memory_action actions)

-- `getBasicBlockActions`, as iterators
unfoldable pub get_basic_block_actions : List ℕ → List (List ℕ)
get_basic_block_actions = collection is_basic_block_action

-- `basicBlockActionCollection::iterator::getMemOps`, up to the next basic block
unfoldable pub block_mem_ops : List ℕ → List ℕ
block_mem_ops it = get_mem_ops (range it (advance is_basic_block_action it))

-- `basicBlockActionCollection::iterator::getMemoryActions`
unfoldable pub block_memory_actions : List ℕ → List ℕ
block_memory_actions it = get_memory_actions (range it (advance is_basic_block_action it))

-- All of these for a list of iterators, one after another
unfoldable pub all_of : (List ℕ → List ℕ) → List (List ℕ) → List ℕ
all_of f [] = []
all_of f (it ∷ its) = f it ++ all_of f its
