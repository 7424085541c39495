-- ===== src/Simulator/Pending.antt =====
-- The counts of unfinished predecessors in `Simulator::run`, by which tasks become ready.
use syncd_sim.Base.{
  ℕ, zero, suc, ◌+◌, ◌-◌, ◌^◌, ◌<◌, ◌≡◌, ◌≢◌, ◌⊎◌, refl, ap, sym, ◌∙◌, inl, inr, true, false, List,
  [], ◌∷◌, none, some, arith, length, ◌==◌, if◌then◌else◌, Bool-cases, Table, assign_self,
  erase_self, ==_iff, subst,
}
use native.Mathlib.Nat.{add_assoc}
use syncd_sim.Types.{TaskGraph}
use syncd_sim.Context.{Config}
use syncd_sim.Simulator.{
  PendingTaskStatus, Simulator, dec64, to_set, assign_task, note_predecessor, visit_successor,
  visit_successors,
}
use syncd_sim.Base.Effects.{ok}
use syncd_sim.Simulator.Assigned.{
  given, visited, visited_all, assign_task_lem, visit_successor_lem, visit_successors_lem,
}

-- How often the task is visited.
unfoldable pub visits : ℕ → List ℕ → ℕ
visits id [] = 0
visits id (x ∷ xs) = (if id == x then 1 else 0) + visits id xs

module _ (cfg : Config) (tg : TaskGraph) (id : ℕ) where
  abbrev pub num_predecessors : ℕ
  num_predecessors = length (tg.get_task_by_id id).predecessors

  -- The entry of a task with `n` predecessors to go.
  abbrev pub waiting : ℕ → PendingTaskStatus
  waiting n = record { count = n; predecessors = to_set (tg.get_task_by_id id).predecessors }

  -- The entry of the task when `k` of its predecessors have completed.
  abbrev pub Waits : ℕ → Table PendingTaskStatus → Type 0
  Waits zero pending = pending id ≡ none
  Waits (suc k) pending = pending id ≡ some (waiting (num_predecessors - suc k))

  dec64_pos : (n : ℕ) → 0 < n → n < 2 ^ 64 → dec64 n ≡ n - 1
  dec64_pos n p h = omega arith

  note_predecessor-Waits :
      (k : ℕ) (pending : Table PendingTaskStatus)
      → Waits k pending
      → k < num_predecessors
      → num_predecessors < 2 ^ 64
      → note_predecessor cfg tg pending id ≡ waiting (num_predecessors - suc k)
  unfolding note_predecessor
  note_predecessor-Waits zero pending w h b =
      rw (w, note_predecessor) (ap waiting (dec64_pos num_predecessors h b))
  note_predecessor-Waits (suc k) pending w h b =
      rw (w, note_predecessor)
        (ap waiting
          (dec64_pos (num_predecessors - suc k) (omega arith) (omega arith) ∙ omega arith))

  -- A task whose predecessors have not all completed: its count goes down and nothing else happens.
  visited-Waits :
      (k : ℕ) (sim : Simulator)
      → Waits k sim.pending_successors
      → suc k < num_predecessors
      → num_predecessors < 2 ^ 64
      → (Waits (suc k) (visited cfg tg sim id).pending_successors)
        × ((visited cfg tg sim id).contexts ≡ sim.contexts)
  unfolding visited
  visited-Waits k sim w h b =
      rw (note_predecessor-Waits k sim.pending_successors w (omega arith) b, some_left, visited)
        (assign_self sim.pending_successors id (waiting (num_predecessors - suc k)), refl)
    where
      some_left : (num_predecessors - suc k == 0) ≡ false
      some_left = ground arith

  -- The last predecessor completes: the task is assigned, and its entry goes.
  visited-ready :
      (k : ℕ) (sim : Simulator)
      → Waits k sim.pending_successors
      → suc k ≡ num_predecessors
      → num_predecessors < 2 ^ 64
      → ((visited cfg tg sim id).pending_successors id ≡ none)
        × ((visited cfg tg sim id).contexts ≡ given cfg (tg.get_task_by_id id) sim.contexts)
  unfolding visited
  visited-ready k sim w h b =
      rw (note_predecessor-Waits k sim.pending_successors w (omega arith) b, none_left, visited)
        (erase_self sim.pending_successors id, refl)
    where
      none_left : (num_predecessors - suc k == 0) ≡ true
      none_left = ground arith

  -- A visit of another task leaves the entry.
  visited-other :
      (other : ℕ) (sim : Simulator)
      → other ≢ id
      → (visited cfg tg sim other).pending_successors id ≡ sim.pending_successors id
  unfolding visited
  visited-other other sim ne =
      elim (Bool-cases ((note_predecessor cfg tg sim.pending_successors other).count == 0)) [
        | inl e ↦ rw (e, visited) (ground arith)
        | inr e ↦ rw (e, visited) (ground arith)
      ]

  Waits-same : (k : ℕ) (p q : Table PendingTaskStatus) → q id ≡ p id → Waits k p → Waits k q
  Waits-same zero p q e w = e ∙ w
  Waits-same (suc k) p q e w = e ∙ w

  visit-Waits :
      (x k : ℕ) (sim : Simulator)
      → Waits k sim.pending_successors
      → k + (if id == x then 1 else 0) < num_predecessors
      → num_predecessors < 2 ^ 64
      → Waits (k + (if id == x then 1 else 0)) (visited cfg tg sim x).pending_successors
  visit-Waits x k sim w h b = elim (Bool-cases (id == x)) [
    | inl e ↦
        subst (λ n. Waits n (visited cfg tg sim x).pending_successors) (counted k e)
          (subst (λ y. Waits (suc k) (visited cfg tg sim y).pending_successors) ((==_iff id x).0 e)
            (visited-Waits k sim w (omega (arith, h, counted k e)) b).0)
    | inr e ↦
        subst (λ n. Waits n (visited cfg tg sim x).pending_successors) (passed k e)
          (Waits-same k sim.pending_successors _ (visited-other x sim (ground arith)) w)
  ]
    where
      counted : (k : ℕ) → (id == x) ≡ true → suc k ≡ k + (if id == x then 1 else 0)
      counted k e = rw e (omega arith)

      passed : (k : ℕ) → (id == x) ≡ false → k ≡ k + (if id == x then 1 else 0)
      passed k e = rw e (omega arith)

  visited_all-Waits :
      (ids : List ℕ) (k : ℕ) (sim : Simulator)
      → Waits k sim.pending_successors
      → k + visits id ids < num_predecessors
      → num_predecessors < 2 ^ 64
      → Waits (k + visits id ids) (visited_all cfg tg sim ids).pending_successors
  unfolding visited_all visits
  visited_all-Waits [] k sim w h b = subst (λ n. Waits n sim.pending_successors) (omega arith) w
  visited_all-Waits (x ∷ xs) k sim w h b =
      let here = if id == x then 1 else 0 in
      subst (λ n. Waits n (visited_all cfg tg sim (x ∷ xs)).pending_successors)
        (add_assoc k here (visits id xs))
        (visited_all-Waits xs (k + here) (visited cfg tg sim x)
          (visit-Waits x k sim w (omega arith) b) (omega arith) b)

  -- What the next visit of the task does when `k` of its predecessors have completed: it changes no
  -- task queue if another is to come, and else assigns the task to its context and drops its entry.
  abbrev pub NextVisit : ℕ → Simulator → Type 0
  NextVisit k sim =
      (after : Simulator) × (visit_successor cfg tg sim id ≡ ok after)
      × (((suc k < num_predecessors) × (after.contexts ≡ sim.contexts))
          ⊎ ((suc k ≡ num_predecessors)
              × (assign_task cfg tg (tg.get_task_by_id id) sim.contexts ≡ ok after.contexts)
              × (after.pending_successors id ≡ none)))

  visited_all-NextVisit :
      (ids : List ℕ) (sim : Simulator)
      → 0 < cfg.num_contexts
      → sim.pending_successors id ≡ none
      → visits id ids < num_predecessors
      → num_predecessors < 2 ^ 64
      → NextVisit (visits id ids) (visited_all cfg tg sim ids)
  visited_all-NextVisit ids sim some_context none_yet h b =
      elim (Bool-cases (suc (visits id ids) == num_predecessors)) [
        | inl e ↦
            let last = (==_iff (suc (visits id ids)) num_predecessors).0 e in
            let (gone, assigned) = visited-ready (visits id ids) now w last b in
            (
              visited cfg tg now id,
              visit_successor_lem cfg tg some_context now id,
              inr (
                last,
                assign_task_lem cfg tg some_context (tg.get_task_by_id id) now.contexts
                    ∙ ap ok (sym assigned),
                gone,
              ),
            )
        | inr e ↦
            let more = still e in
            (
              visited cfg tg now id,
              visit_successor_lem cfg tg some_context now id,
              inl (more, (visited-Waits (visits id ids) now w more b).1),
            )
      ]
    where
      now : Simulator
      now = visited_all cfg tg sim ids

      w : Waits (visits id ids) now.pending_successors
      w =
          subst (λ n. Waits n now.pending_successors) {x = 0 + visits id ids} (omega arith)
            (visited_all-Waits ids 0 sim none_yet (omega arith) b)

      still :
          (suc (visits id ids) == num_predecessors) ≡ false → suc (visits id ids) < num_predecessors
      still e = ground arith

  -- Let there be a context, let a task with fewer than 2 ^ 64 predecessors have no entry, and let
  -- not all of its predecessors complete, one visit each, among any visits of other tasks. Then
  -- these visits and the next one succeed, and the next one changes no context if another
  -- predecessor is to come; and if it is the last one, it assigns the task to its context, and the
  -- entry of the task is gone.
  pub visit_successors-NextVisit :
      (ids : List ℕ) (sim : Simulator)
      → 0 < cfg.num_contexts
      → sim.pending_successors id ≡ none
      → visits id ids < num_predecessors
      → num_predecessors < 2 ^ 64
      → (now : Simulator) × (visit_successors cfg tg sim ids ≡ ok now)
        × NextVisit (visits id ids) now
  visit_successors-NextVisit ids sim some_context none_yet h b = (
    visited_all cfg tg sim ids,
    visit_successors_lem cfg tg some_context ids sim,
    visited_all-NextVisit ids sim some_context none_yet h b,
  )
