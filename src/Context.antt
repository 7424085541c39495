-- ===== src/Context.antt =====
-- backend/Simulator/context.hpp and context.cpp: the state of one context, and the methods by which
-- its parts reach one another. The state of the processor and of the protocol handler stands in
-- their records. The number of a context is its place among the simulator's contexts.
pub mod Home
use syncd_sim.Base.{
  ℕ, suc, zero, ℤ, pos, ◌+◌, ◌-◌, ◌/◌, ◌^◌, Bool, true, false, List, [], ◌∷◌, ◌++◌, Option, none,
  some, ◌==◌, ltb, if◌then◌else◌, Table, empty_table,
}
use syncd_sim.Base.Effects.{
  Fault, Result, ok, err, Exec, gets, modify, fail, pure, ◌>>=◌, ◌>>◌, no_context,
}
use syncd_sim.Types.{
  Message, ProtocolType, ProtocolStatus, DirectoryEntry, DirectoryEntryStatus, ActionType, MemOp,
  MemoryAction, Task, new_memory_action,
}
use syncd_sim.Cache.{Cache, CacheLine, new_cache}
use syncd_sim.Directory.{update_entry, look_up_entry}

-- What the command line and the task graph fix for a run.
pub record Config : Type 0 where
  pub num_contexts : ℕ
  pub protocol : ProtocolType
  pub node_latency : ℤ
  pub cache_latency : ℤ

-- The members of `MSIHandler` and `MESIHandler`.
pub record Handler : Type 0 where
  pub cache_line_status : Table ProtocolStatus
  pub pending_inv_ack_count : Table ℤ
  pub blocked_msg_map : Table (List Message)

-- The members of `Processor`.
pub record Processor : Type 0 where
  pub curr_task : Option Task
  pub mem_action_queue : List MemoryAction

-- The counters of a context.
pub record Stats : Type 0 where
  pub cache_hit : ℕ
  pub cache_miss : ℕ
  pub num_sent_msgs : ℕ
  pub num_sent_msgs_to_cache : ℕ
  pub num_invalidations_sent : ℕ
  pub e_state_count : ℕ
  pub m_state_count : ℕ

-- `Context::blockedMsgMap` is never used and left out.
pub record Context : Type 0 where
  pub processor : Processor
  pub handler : Handler
  pub directory : Table DirectoryEntry
  pub cache : Cache
  pub task_queue : List Task
  pub completed_tasks : List Task
  pub cache_msg_queue : List Message
  pub incoming_msg_queue : List Message
  pub current_mem_op : MemOp
  pub successful : Bool
  pub stats : Stats

abbrev pub no_stats : Stats
no_stats = record {
  cache_hit = 0;
  cache_miss = 0;
  num_sent_msgs = 0;
  num_sent_msgs_to_cache = 0;
  num_invalidations_sent = 0;
  e_state_count = 0;
  m_state_count = 0;
}

-- The constructor. `op` is what stands in `currentMemOp`, which it does not set, and `memory` what
-- stands in the rows of the cache.
unfoldable pub new_context : MemOp → (ℕ → List CacheLine) → Context
unfolding new_cache
new_context op memory = record {
  processor = record { curr_task = none; mem_action_queue = [] };
  handler = record {
    cache_line_status = empty_table;
    pending_inv_ack_count = empty_table;
    blocked_msg_map = empty_table;
  };
  directory = empty_table;
  cache = new_cache memory;
  task_queue = [];
  completed_tasks = [];
  cache_msg_queue = [];
  incoming_msg_queue = [];
  current_mem_op = op;
  successful = true;
  stats = no_stats;
}

-- The simulator's `contexts`.
abbrev pub World : Type 0
World = ℕ → Context

abbrev pub put_context : World → ℕ → Context → World
put_context w id c j = if id == j then c else w j

abbrev pub get_context : ℕ → Exec World Context
get_context me = gets (λ w. w me)

unfoldable pub update_context : ℕ → (Context → Context) → Exec World (Unit {0})
update_context me f = modify (λ w. put_context w me (f (w me)))

module _ (me : ℕ) where
  unfoldable pub add_to_cache_msg_queue : Message → Exec World (Unit {0})
  add_to_cache_msg_queue msg =
      update_context me λ c. record c { cache_msg_queue = c.cache_msg_queue ++ msg ∷ [] }

  unfoldable pub add_to_incoming_msg_queue : Message → Exec World (Unit {0})
  add_to_incoming_msg_queue msg =
      update_context me λ c. record c { incoming_msg_queue = c.incoming_msg_queue ++ msg ∷ [] }

  unfoldable pub set_successful : Bool → Exec World (Unit {0})
  set_successful b = update_context me λ c. record c { successful = b }

  unfoldable pub set_mem_op : ℕ → ActionType → Exec World (Unit {0})
  set_mem_op addr type =
      update_context me
        λ c. record c { current_mem_op = record { addr = addr; action_type = type } }

  unfoldable pub count : (Stats → Stats) → Exec World (Unit {0})
  count f = update_context me λ c. record c { stats = f c.stats }

  unfoldable pub update_handler : (Handler → Handler) → Exec World (Unit {0})
  update_handler f = update_context me λ c. record c { handler = f c.handler }

  unfoldable pub add_to_task_queue : Task → Exec World (Unit {0})
  add_to_task_queue task =
      update_context me λ c. record c { task_queue = c.task_queue ++ task ∷ [] }

  unfoldable pub add_completed_task : Task → Exec World (Unit {0})
  add_completed_task task =
      update_context me λ c. record c { completed_tasks = c.completed_tasks ++ task ∷ [] }

  unfoldable pub clear_completed_tasks : Exec World (Unit {0})
  clear_completed_tasks = update_context me λ c. record c { completed_tasks = [] }

  -- `Processor::reAddCurrMemOp`, called on the current operation.
  unfoldable pub re_add_curr_mem_op : Exec World (Unit {0})
  re_add_curr_mem_op = update_context me λ c. record c {
    processor = record (c.processor) {
      mem_action_queue =
          new_memory_action c.current_mem_op.addr c.current_mem_op.action_type
          ∷ c.processor.mem_action_queue;
    };
  }

-- The counters that the handlers move.
abbrev pub inc_cache_hit : Stats → Stats
inc_cache_hit s = record s { cache_hit = s.cache_hit + 1 }

abbrev pub inc_cache_miss : Stats → Stats
inc_cache_miss s = record s { cache_miss = s.cache_miss + 1 }

abbrev pub inc_num_sent_msgs : Stats → Stats
inc_num_sent_msgs s = record s { num_sent_msgs = s.num_sent_msgs + 1 }

abbrev pub inc_num_sent_msgs_to_cache : Stats → Stats
inc_num_sent_msgs_to_cache s = record s { num_sent_msgs_to_cache = s.num_sent_msgs_to_cache + 1 }

abbrev pub inc_num_invalidations : Stats → Stats
inc_num_invalidations s = record s { num_invalidations_sent = s.num_invalidations_sent + 1 }

abbrev pub inc_e_state_count : Stats → Stats
inc_e_state_count s = record s { e_state_count = s.e_state_count + 1 }

abbrev pub inc_m_state_count : Stats → Stats
inc_m_state_count s = record s { m_state_count = s.m_state_count + 1 }

-- `(int)log2(n)`, for n > 0, with `n` for fuel.
log2_loop : ℕ → ℕ → ℕ
log2_loop zero n = 0
log2_loop (suc f) n = elim (ltb n 2) [ true ↦ 0 | false ↦ suc (log2_loop f (n / 2)) ]

unfoldable pub log2 : ℕ → ℕ
unfolding log2_loop
log2 n = log2_loop n n

module _ (cfg : Config) where
  -- `getHomeNodeIdByAddr`: `addr >> (48 - log2(numContexts))`
  unfoldable pub home_node_id : ℕ → ℕ
  unfolding log2
  home_node_id addr = addr / 2 ^ (48 - log2 cfg.num_contexts)

  -- `getContextById(id) -> addToIncomingMsgQueue(msg)`
  unfoldable pub deliver : ℕ → Message → Exec World (Unit {0})
  deliver id msg =
      if ltb id cfg.num_contexts then add_to_incoming_msg_queue id msg else fail no_context

  -- `lookupDirectoryEntry`, which may add an entry.
  unfoldable pub lookup_directory_entry : ℕ → ℕ → Exec World DirectoryEntry
  lookup_directory_entry me addr w =
      let (directory, entry) = look_up_entry cfg.num_contexts (w me).directory addr in
      ok (entry, put_context w me (record (w me) { directory = directory }))

  unfoldable pub update_directory_entry : ℕ → ℕ → DirectoryEntryStatus → ℤ → Exec World (Unit {0})
  update_directory_entry me addr status pid w =
      elim (update_entry cfg.protocol cfg.num_contexts (w me).directory addr status pid) [
        | ok directory ↦ ok (tt, put_context w me (record (w me) { directory = directory }))
        | err e ↦ err e
      ]
