-- ===== src/Safety/Node.antt =====
-- The invariant and `Processor::run` and `Context::run`.
use syncd_sim.Base.{ℕ, zero, suc, ◌^◌, ◌<◌, true, false, not, arith, bit_and}
use syncd_sim.Base.Bits.{clear_low_nine}
use syncd_sim.Base.Effects.{out_of_fuel}
use syncd_sim.Types.{ProtocolType, msi, mesi, ActionType, aligner}
use syncd_sim.Context.{Config, Processor, set_mem_op, add_completed_task, clear_completed_tasks}
use syncd_sim.Context.Home.{IsConfig}
use syncd_sim.Msi
use syncd_sim.Mesi
use syncd_sim.Node.{
  handle_mem_op_request, check_incoming, update_processor, get_next_task, finish_task,
  run_processor_loop, run_processor, run_context,
}
use syncd_sim.Safety.{IsSafe}
use syncd_sim.Safety.Rules.{
  Any, IsSafe-bind, IsSafe-then, IsSafe-if, IsSafe-pure, IsSafe-skip, IsSafe-fail, IsSafe-list,
  IsSafe-option,
}
use syncd_sim.Safety.Members.{
  get_context-IsSafe, update_context-IsSafe, IsContext-unread, set_successful-IsSafe,
}
use syncd_sim.Safety.Loops.{check_incoming_msg_queue-IsSafe}
use syncd_sim.Safety.Msi as MsiSafe
use syncd_sim.Safety.MesiCases
use syncd_sim.Safety.Mesi as MesiSafe
use syncd_sim.Safety.Serve.{run_cache-IsSafe}

module _ (cfg : Config) (me : ℕ) where
  set_mem_op-IsSafe :
      (addr : ℕ) (type : ActionType)
      → addr < 2 ^ 48
      → IsSafe cfg {A = Unit} Any (set_mem_op me addr type)
  unfolding set_mem_op
  set_mem_op-IsSafe addr type h = update_context-IsSafe cfg me _ λ c v. record {
    directory = v.directory;
    incoming = v.incoming;
    to_cache = v.to_cache;
    blocked = v.blocked;
    operation = h;
    geometry = v.geometry;
    tags = v.tags;
  }

  update_processor-IsSafe :
      (f : Processor → Processor) → IsSafe cfg {A = Unit} Any (update_processor cfg me f)
  unfolding update_processor
  update_processor-IsSafe f = update_context-IsSafe cfg me _ (λ c v. IsContext-unread v)

  finish_task-IsSafe : IsSafe cfg {A = Unit} Any (finish_task cfg me)
  unfolding finish_task add_completed_task
  finish_task-IsSafe = IsSafe-bind (get_context-IsSafe cfg me) λ c v.
      IsSafe-option c.processor.curr_task (λ _. IsSafe-skip)
        λ task _.
          IsSafe-then (update_context-IsSafe cfg me _ (λ c v. IsContext-unread v))
            (update_processor-IsSafe _)

  get_next_task-IsSafe : IsSafe cfg Any (get_next_task cfg me)
  unfolding get_next_task
  get_next_task-IsSafe = IsSafe-bind (get_context-IsSafe cfg me) λ c v.
      IsSafe-list c.task_queue (λ _. IsSafe-pure _)
        λ task rest _.
          IsSafe-then (update_context-IsSafe cfg me _ (λ c v. IsContext-unread v)) (IsSafe-pure _)

module _ (cfg : Config) (me : ℕ) (ok_cfg : IsConfig cfg) (here : me < cfg.num_contexts) where
  handle_mem_op_request-IsSafe : IsSafe cfg {A = Unit} Any (handle_mem_op_request cfg me)
  unfolding handle_mem_op_request
  handle_mem_op_request-IsSafe = by_protocol cfg.protocol
    where
      by_protocol :
          (p : ProtocolType)
          → IsSafe cfg {A = Unit} Any (elim p [
            | msi ↦ Msi.handle_mem_op_request cfg me
            | mesi ↦ Mesi.handle_mem_op_request cfg me
          ])
      by_protocol msi = MsiSafe.handle_mem_op_request-IsSafe cfg me ok_cfg here
      by_protocol mesi = MesiCases.handle_mem_op_request-IsSafe cfg me ok_cfg here

  check_incoming-IsSafe : (fuel : ℕ) → IsSafe cfg {A = Unit} Any (check_incoming cfg me fuel)
  unfolding check_incoming Msi.check_incoming Mesi.check_incoming
  check_incoming-IsSafe fuel = by_protocol cfg.protocol
    where
      by_protocol :
          (p : ProtocolType)
          → IsSafe cfg {A = Unit} Any (elim p [
            | msi ↦ Msi.check_incoming cfg me fuel
            | mesi ↦ Mesi.check_incoming cfg me fuel
          ])
      by_protocol msi =
          check_incoming_msg_queue-IsSafe cfg me _ (MsiSafe.handle-IsSafe cfg me ok_cfg here) fuel
      by_protocol mesi =
          check_incoming_msg_queue-IsSafe cfg me _ (MesiSafe.handle-IsSafe cfg me ok_cfg here) fuel

  -- An aligned address has 48 bits.
  aligned_lt : (addr : ℕ) → bit_and addr aligner < 2 ^ 48
  aligned_lt addr = omega (arith, clear_low_nine addr)

  run_processor_loop-IsSafe :
      (fuel : ℕ) → IsSafe cfg {A = Unit} Any (run_processor_loop cfg me fuel)
  unfolding run_processor_loop
  run_processor_loop-IsSafe zero = IsSafe-fail out_of_fuel tt
  run_processor_loop-IsSafe (suc fuel) = IsSafe-bind (get_context-IsSafe cfg me) λ c v.
      IsSafe-if (not c.successful) (λ _. IsSafe-skip)
        λ _. IsSafe-then (set_successful-IsSafe cfg me false) (
          IsSafe-list c.processor.mem_action_queue
            (λ _. IsSafe-then (finish_task-IsSafe cfg me) (
              IsSafe-bind (get_next_task-IsSafe cfg me) λ next _.
                IsSafe-then (update_processor-IsSafe cfg me _) (
                  IsSafe-then (set_successful-IsSafe cfg me true) (
                    IsSafe-option next (λ _. IsSafe-skip)
                      λ task _.
                        IsSafe-then (update_processor-IsSafe cfg me _)
                          (run_processor_loop-IsSafe fuel)))))
            λ ma rest _. IsSafe-then (update_processor-IsSafe cfg me _) (
              IsSafe-then (set_mem_op-IsSafe cfg me _ _ (aligned_lt ma.addr))
                (IsSafe-then handle_mem_op_request-IsSafe (run_processor_loop-IsSafe fuel))))

  run_processor-IsSafe : IsSafe cfg {A = Unit} Any (run_processor cfg me)
  unfolding run_processor
  run_processor-IsSafe = IsSafe-bind (get_context-IsSafe cfg me) λ c v. run_processor_loop-IsSafe _

  pub run_context-IsSafe : (fuel : ℕ) → IsSafe cfg {A = Unit} Any (run_context cfg me fuel)
  unfolding run_context clear_completed_tasks
  run_context-IsSafe fuel =
      IsSafe-then (update_context-IsSafe cfg me _ (λ c v. IsContext-unread v)) (
        IsSafe-then (run_cache-IsSafe cfg me here)
          (IsSafe-then (check_incoming-IsSafe fuel) run_processor-IsSafe))
