-- ===== src/Fuel/Processor.antt =====
-- The rounds of `Processor::run` of processor.cpp.
use syncd_sim.Base.{
  ◌≢◌, ℕ, zero, suc, ◌+◌, ◌≤◌, ◌≡◌, refl, ap, true, false, not, List, ◌∷◌, Option, none, some,
  length, arith, ==_refl, subst, sym, ◌∙◌, ◌-◌,
}
use syncd_sim.Base.Effects.{err, Exec, skip, ◌>>=◌, ◌>>◌, out_of_fuel}
use syncd_sim.Types.{Task, ActionType}
use syncd_sim.Context.{
  Config, Context, World, Processor, put_context, update_context, set_successful, set_mem_op,
  add_completed_task,
}
use syncd_sim.Node.{update_processor, get_next_task, finish_task, run_processor_loop, run_processor}
use syncd_sim.Fuel.Triples.{
  Gives, Outcome, Gives-bind, Gives-then, Gives-if, Gives-list, Gives-gets, Gives-from,
}
use syncd_sim.Fuel.Context.{Has, IsApart, update_context-Has}
use syncd_sim.Fuel.MemOp.{handle_mem_op_request-Has}

module _ (cfg : Config) (me : ℕ) where
  -- The processor waits for its memory operation.
  abbrev Waiting : World → Type 0
  Waiting = Has me (λ c. c.successful) (λ b. b ≡ false)

  -- At most `n` tasks are left in the queue.
  abbrev AtMost : ℕ → World → Type 0
  AtMost n = Has me (λ c. c.task_queue) (λ q. length q ≤ n)

  -- What `getNextTask` leaves.
  abbrev Taken : ℕ → Option Task → World → Type 0
  Taken n none w = Unit
  Taken n (some task) w = (k : ℕ) × (n ≡ suc k) × AtMost k w

  waiting :
      (w : World) → Has me (λ c. c.successful) (λ b. b ≡ false) (w) → (w me).successful ≡ false
  waiting w p = p.has

  update_processor-Has :
      {X : Type 0} (F : Context → X) (P : X → Type 0) (f : Processor → Processor)
      → ((p : Processor) (c : Context) → F (record c { processor = p }) ≡ F c)
      → Gives (Has me F P) (update_processor cfg me f) (λ _. Has me F P)
  unfolding update_processor
  update_processor-Has F P f h = update_context-Has me F P me _ (λ c. h (f c.processor) c)

  -- While the processor waits, a round of the loop is the last.
  loop-Waiting : (fuel : ℕ) → Gives Waiting (run_processor_loop cfg me (suc fuel)) (λ _ _. Unit)
  unfolding run_processor_loop ◌>>=◌
  loop-Waiting fuel = record { apply = λ w p. rw (p.has, Outcome) tt }

  done-Gives : {P : World → Type 0} → Gives P skip (λ _ _. Unit)
  done-Gives = record { apply = λ s p. tt }

  any-Gives : (f : Context → Context) → Gives (λ _. Unit) (update_context me f) (λ _ _. Unit)
  unfolding update_context
  any-Gives f = record { apply = λ s p. tt }

  set_successful-Gives :
      (n : ℕ) → Gives (AtMost n) (set_successful me false) (λ _ w. Waiting w × AtMost n w)
  unfolding set_successful update_context
  set_successful-Gives n = record {
    apply = λ w p. (
      record { has = rw (==_refl me, put_context) refl },
      record { has = rw (==_refl me, put_context) p.has },
    );
  }

  get_next_task-Taken : (n : ℕ) → Gives (AtMost n) (get_next_task cfg me) (Taken n)
  unfolding get_next_task update_context
  get_next_task-Taken n =
      Gives-bind {Q = λ c w. AtMost n w × (c ≡ w me)} (record { apply = λ w p. (p, refl) })
        λ c.
          Gives-list c.task_queue (λ _. record { apply = λ w p. tt })
            λ task rest e.
              Gives-bind {Q = λ _ w. (k : ℕ) × (n ≡ suc k) × AtMost k w}
                (record {
                  apply = λ w p.
                      shorter task w rest
                        (subst (λ q. length q ≤ n) (ap (λ x. x.task_queue) (sym p.1) ∙ e) p.0.has);
                })
                (λ _. record { apply = λ w p. p })
    where
      shorter :
          (task : Task) (w : World) (rest : List Task)
          → length (task ∷ rest) ≤ n
          → (k : ℕ) × (n ≡ suc k)
            × AtMost k (put_context w me (record (w me) { task_queue = rest }))
      shorter task w rest h =
          (n - 1, omega arith, record { has = rw (==_refl me, put_context) (omega arith) })

  finish_task-Has : (n : ℕ) → Gives (AtMost n) (finish_task cfg me) (λ _. AtMost n)
  unfolding finish_task add_completed_task
  finish_task-Has n = Gives-bind (Gives-gets _) λ c. by_task c.processor.curr_task
    where
      by_task :
          (o : Option Task)
          → Gives
              (AtMost n)
              (elim o [
                | none ↦ skip
                | some task ↦ (do
                  add_completed_task me task
                  update_processor cfg me λ p. record p { curr_task = none })
              ])
              (λ _. AtMost n)
      by_task none = record { apply = λ s p. p }
      by_task (some task) =
          Gives-then (update_context-Has me _ _ me _ (λ c. refl))
            (update_processor-Has _ _ _ (λ p c. refl))

  -- The end of the round that takes a task.
  start-Gives :
      (n : ℕ) (k : Exec World (Unit {0})) (next : Option Task)
      → ((m : ℕ) → n ≡ suc m → Gives (AtMost m) k (λ _ _. Unit))
      → (f : Processor → Processor) (g : Task → Processor → Processor)
      → Gives
          (Taken n next)
          (do
            update_processor cfg me f
            set_successful me true
            elim next [ none ↦ skip | some task ↦ update_processor cfg me (g task) >> k ])
          (λ _ _. Unit)
  unfolding update_processor set_successful
  start-Gives n k none h f g = Gives-then (any-Gives _) (Gives-then (any-Gives _) done-Gives)
  start-Gives n k (some task) h f g = record {
    apply = λ w (m, e, p).
        (Gives-then (update_context-Has me _ _ me _ (λ c. refl)) (
            Gives-then (update_context-Has me _ _ me _ (λ c. refl))
              (Gives-then (update_context-Has me _ _ me _ (λ c. refl)) (h m e)))).apply
          w p;
  }

  set_mem_op-Has :
      (addr : ℕ) (type : ActionType) → Gives Waiting (set_mem_op me addr type) (λ _. Waiting)
  unfolding set_mem_op
  set_mem_op-Has addr type = update_context-Has me _ _ me _ (λ c. refl)

  run_processor_loop-Gives :
      (fuel n : ℕ) → n + 2 ≤ fuel → Gives (AtMost n) (run_processor_loop cfg me fuel) (λ _ _. Unit)
  unfolding run_processor_loop
  run_processor_loop-Gives zero n h = absurd (omega arith)
  run_processor_loop-Gives (suc zero) n h = absurd (omega arith)
  run_processor_loop-Gives (suc (suc fuel)) n h = Gives-bind (Gives-gets _) λ c.
      Gives-if (not c.successful) (λ _. done-Gives)
        λ _. Gives-bind (set_successful-Gives n) λ _.
          Gives-list c.processor.mem_action_queue
            (λ _.
              Gives-from (λ w p. p.1)
                (Gives-then (finish_task-Has n) (
                  Gives-bind (get_next_task-Taken n) λ next.
                    start-Gives n _ next
                      (λ m e. run_processor_loop-Gives (suc fuel) m (omega arith)) _ _)))
            λ ma rest _.
              Gives-from (λ w p. p.0)
                (Gives-then (update_processor-Has _ _ _ (λ p c. refl)) (
                  Gives-then (set_mem_op-Has _ _)
                    (Gives-then (handle_mem_op_request-Has cfg me _ _ apart) (loop-Waiting fuel))))
    where
      apart : IsApart me (λ c. c.successful) (λ b. b ≡ false)
      apart = record {
        count = λ f c. refl;
        incoming = λ q c. refl;
        to_cache = λ q c. refl;
        handler = λ f same c. refl;
        directory = λ d c. refl;
      }

-- `Processor::run` ends from every state and under both protocols: it does not run out of the
-- rounds that the model gives it, and returns or stops with a fault of the program.
pub run_processor_returns :
    (cfg : Config) (me : ℕ) (w : World) → run_processor cfg me w ≢ err out_of_fuel
unfolding run_processor
run_processor_returns cfg me w h =
    subst (Outcome (λ _ _. Unit)) h
      ((Gives-bind {Q = λ c v. AtMost cfg me (length c.task_queue) v} {P = λ v. v ≡ w}
          (record { apply = λ v e. record { has = omega arith } })
          (λ c.
            run_processor_loop-Gives cfg me (suc (suc (length c.task_queue))) (length c.task_queue)
              (omega arith))).apply
        w refl)
      refl
