-- ===== src/Node.antt =====
-- The parts of a context at work: `Cache::run` of backend/Simulator/cache.cpp, `Processor` of
-- processor.hpp and processor.cpp, and `Context::run` of context.cpp.
pub mod Actions
use syncd_sim.Base.{
  ℕ, suc, zero, ◌+◌, bit_and, true, false, List, [], ◌∷◌, ◌++◌, Option, none, some, ◌==◌, ltb, not,
  length, if◌then◌else◌, map, is_zero_ℤ,
}
use syncd_sim.Base.Effects.{
  Exec, pure, fail, skip, ◌>>=◌, ◌>>◌, no_line, no_victim, unknown_type, out_of_fuel,
}
use syncd_sim.Types.{
  Message, MessageType, new_message, cache_read, cache_read_reply, cache_update, cache_update_ack,
  cache_invalidate, cache_invalidate_ack, cache_fetch, cache_fetch_ack, cache_eviction_alert, msi,
  mesi, MemoryAction, new_memory_action, Task, aligner, line_size, action_size, iter_cap,
}
use syncd_sim.Cache.{Cache, read_line, invalidate_line, fetch_line, update_line}
use syncd_sim.Context.{
  Config, World, Processor, get_context, update_context, add_to_incoming_msg_queue, set_successful,
  set_mem_op, add_completed_task, clear_completed_tasks,
}
use syncd_sim.Handler.{tick}
use syncd_sim.Msi
use syncd_sim.Mesi

module _ (cfg : Config) (me : ℕ) where
  unfoldable pub put_cache : Cache → Exec World (Unit {0})
  put_cache cache = update_context me λ c. record c { cache = cache }

  -- The cache after an operation that looks a line up; `exit(-1)` if there is none.
  unfoldable pub line_found : Option Cache → MessageType → Exec World MessageType
  line_found none type = fail no_line
  line_found (some cache) type = do put_cache cache; pure type

  -- The end of case CACHE_UPDATE: an alert if a line was evicted.
  unfoldable pub line_written : Option (Cache × Option ℕ) → Exec World MessageType
  line_written none = fail no_victim
  line_written (some (cache, none)) = do put_cache cache; pure cache_update_ack
  line_written (some (cache, some eviction_addr)) = do
    put_cache cache
    add_to_incoming_msg_queue me
        (new_message 0 eviction_addr cache_eviction_alert cfg.cache_latency)
    pure cache_update_ack

  -- The `switch` of `Cache::run`; the type of the reply. Any other type leaves it unset.
  unfoldable pub serve : MessageType → ℕ → Exec World MessageType
  serve cache_read addr = do
    c ← get_context me
    line_found (read_line c.cache addr) cache_read_reply
  serve cache_invalidate addr = do
    c ← get_context me
    line_found (invalidate_line c.cache addr) cache_invalidate_ack
  serve cache_fetch addr = do
    c ← get_context me
    line_found (fetch_line c.cache addr) cache_fetch_ack
  serve cache_update addr = do c ← get_context me; line_written (update_line c.cache addr)
  serve _ addr = fail unknown_type

  -- The `while` loop of `Cache::run` over its queue: what is left of the queue.
  unfoldable pub serve_queue : List Message → Exec World (List Message)
  serve_queue [] = pure []
  serve_queue (msg ∷ msgs) = elim (is_zero_ℤ msg.latency) [
    | false ↦ pure (msg ∷ msgs)
    | true ↦ do
      reply ← serve msg.msg_type msg.addr
      add_to_incoming_msg_queue me (new_message msg.source_id msg.addr reply cfg.cache_latency)
      serve_queue msgs
  ]

  -- `Cache::run`. The source reads `messages.front()` before it tests the queue for emptiness.
  unfoldable pub run_cache : Exec World (Unit {0})
  run_cache = do
    c ← get_context me
    left ← serve_queue (map tick c.cache_msg_queue)
    update_context me λ d. record d { cache_msg_queue = left }

-- The addresses that one memory action stands for: its own, and the next line's if it runs over.
unfoldable pub split_action : MemoryAction → List MemoryAction
split_action ma =
    if ltb (bit_and ma.addr aligner + line_size) (ma.addr + action_size)
    then ma ∷ new_memory_action (bit_and ma.addr aligner + line_size) ma.type ∷ []
    else ma ∷ []

-- The loop of `populateMemActionQueue`, which stops after ITER_CAP actions.
unfoldable pub populate : ℕ → List MemoryAction → List MemoryAction
populate index [] = []
populate index (ma ∷ rest) =
    split_action ma ++ (if suc index == iter_cap then [] else populate (suc index) rest)

module _ (cfg : Config) (me : ℕ) where
  -- `myContext -> handleMemOpRequest()`
  unfoldable pub handle_mem_op_request : Exec World (Unit {0})
  handle_mem_op_request = elim cfg.protocol [
    | msi ↦ Msi.handle_mem_op_request cfg me
    | mesi ↦ Mesi.handle_mem_op_request cfg me
  ]

  -- `pH -> checkIncomingMsgQueue()`
  unfoldable pub check_incoming : ℕ → Exec World (Unit {0})
  check_incoming fuel = elim cfg.protocol [
    | msi ↦ Msi.check_incoming cfg me fuel
    | mesi ↦ Mesi.check_incoming cfg me fuel
  ]

  unfoldable pub update_processor : (Processor → Processor) → Exec World (Unit {0})
  update_processor f = update_context me λ c. record c { processor = f c.processor }

  -- `getNextTask`
  unfoldable pub get_next_task : Exec World (Option Task)
  get_next_task = do
    c ← get_context me
    elim c.task_queue [
      | [] ↦ pure none
      | task ∷ rest ↦ do update_context me λ d. record d { task_queue = rest }; pure (some task)
    ]

  -- The task is done: report it.
  unfoldable pub finish_task : Exec World (Unit {0})
  finish_task = do
    c ← get_context me
    elim c.processor.curr_task [
      | none ↦ skip
      | some task ↦ do
        add_completed_task me task
        update_processor λ p. record p { curr_task = none }
    ]

  -- The `while` loop of `Processor::run`.
  unfoldable pub run_processor_loop : ℕ → Exec World (Unit {0})
  run_processor_loop zero = fail out_of_fuel
  run_processor_loop (suc fuel) = do
    c ← get_context me
    if not c.successful then skip else do
      set_successful me false
      elim c.processor.mem_action_queue [
        | ma ∷ rest ↦ do
          update_processor λ p. record p { mem_action_queue = rest }
          set_mem_op me (bit_and ma.addr aligner) ma.type
          handle_mem_op_request
          run_processor_loop fuel
        | [] ↦ do
          finish_task
          next ← get_next_task
          update_processor λ p. record p { curr_task = next }
          set_successful me true
          elim next [
            | none ↦ skip
            | some task ↦ do
              update_processor
                  λ p. record p { mem_action_queue = p.mem_action_queue ++ populate 0 task.mem_ops }
              run_processor_loop fuel
          ]
      ]

  -- `Processor::run`. Each round but the last two takes a task.
  unfoldable pub run_processor : Exec World (Unit {0})
  run_processor = do c ← get_context me; run_processor_loop (suc (suc (length c.task_queue)))

  -- `Context::run`
  unfoldable pub run_context : ℕ → Exec World (Unit {0})
  run_context fuel = do
    clear_completed_tasks me
    run_cache cfg me
    check_incoming fuel
    run_processor
