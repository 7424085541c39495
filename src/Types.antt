-- ===== src/Types.antt =====
-- backend/Simulator/message.hpp and common.hpp: messages, line states, directory entries, and the
-- memory operations and tasks that the task graph library hands to the simulator.
use syncd_sim.Base.{ℕ, ℤ, ◌^◌, ◌%◌, ◌-◌, Bool, true, false, List}

pub data MessageType : Type 0 where
  cache_read cache_read_reply cache_update cache_update_ack : MessageType
  cache_invalidate cache_invalidate_ack cache_fetch cache_fetch_ack : MessageType
  cache_eviction_alert write_miss read_miss invalidate invalidate_ack : MessageType
  invalidate_other invalidate_other_ack fetch fetch_invalidate : MessageType
  data_value_reply data_value_reply_e data_write_back rollback : MessageType

-- `sourceID` is an `int`; only context numbers and the literal 0 are stored in it.
pub record Message : Type 0 where
  pub source_id : ℕ
  pub addr : ℕ
  pub msg_type : MessageType
  pub latency : ℤ
  pub serviced : Bool

-- The constructor `Message(sid, a, type, l)`.
abbrev pub new_message : ℕ → ℕ → MessageType → ℤ → Message
new_message sid a type l = record {
  source_id = sid;
  addr = a;
  msg_type = type;
  latency = l;
  serviced = false;
}

pub data ProtocolType : Type 0 where
  msi mesi : ProtocolType

pub data DirectoryEntryStatus : Type 0 where
  uncached shared modified exclusive : DirectoryEntryStatus

pub record DirectoryEntry : Type 0 where
  pub processor_mask : List Bool
  pub status : DirectoryEntryStatus

-- `enum protocolStatus {M, E, S, I}`
pub data ProtocolStatus : Type 0 where
  m e s i : ProtocolStatus

-- `contech::action_type`
pub data ActionType : Type 0 where
  action_null mem_read mem_write free malloc size basic_block memcpy : ActionType

abbrev pub is_mem_write : ActionType → Bool
is_mem_write mem_write = true
is_mem_write _ = false

abbrev pub is_mem_read : ActionType → Bool
is_mem_read mem_read = true
is_mem_read _ = false

pub record MemOp : Type 0 where
  pub addr : ℕ
  pub action_type : ActionType

-- What the simulator reads of a `contech::MemoryAction`: a 48-bit field and the type.
pub record MemoryAction : Type 0 where
  pub addr : ℕ
  pub type : ActionType

-- `contech::MemoryAction{a, ps, at}`; the bit field keeps the low 48 bits of the address.
abbrev pub new_memory_action : ℕ → ActionType → MemoryAction
new_memory_action a type = record { addr = a % 2 ^ 48; type = type }

-- What the getters of a `contech::Task` return. Task and context numbers are taken as they come.
pub record Task : Type 0 where
  pub task_id : ℕ
  pub context_id : ℕ
  pub successors : List ℕ
  pub predecessors : List ℕ
  pub mem_ops : List MemoryAction

-- The task graph library of Contech, which the simulator calls and does not implement.
pub record TaskGraph : Type 0 where
  pub number_of_contexts : ℕ
  pub number_of_tasks : ℕ
  pub first_task : Task
  pub get_task_by_id : ℕ → Task

abbrev pub int_max : ℕ
int_max = 2 ^ 31 - 1

-- `#define ALIGNER`
abbrev pub aligner : ℕ
aligner = 0xFFFF_FFFF_FE00

-- `#define LINE_SIZE`
abbrev pub line_size : ℕ
line_size = 64

-- `#define ACTION_SIZE`
abbrev pub action_size : ℕ
action_size = 8

-- `#define UNFINISHED_TASK_CAP`
abbrev pub unfinished_task_cap : ℕ
unfinished_task_cap = 200

-- `#define ITER_CAP`
abbrev pub iter_cap : ℕ
iter_cap = 1000
