-- ===== src/Examples/Data.antt =====
-- The caches, directories, contexts and task graphs of the examples.
use syncd_sim.Base.{ℕ, zero, suc, pos, true, false, List, [], ◌∷◌, none, Table, assign, empty_table}
use syncd_sim.Types.{
  DirectoryEntry, shared, exclusive, msi, mesi, Message, new_message, read_miss, write_miss, Task,
  TaskGraph, mem_read, mem_write,
}
use syncd_sim.Cache.{CacheLine, Cache}
use syncd_sim.Context.{Config, Context, World, no_stats}

abbrev pub free_line : CacheLine
free_line = record { valid = false; dirty = false; tag = 0; lru_counter = 0 }

abbrev pub used_line : ℕ → ℕ → CacheLine
used_line tag counter = record { valid = true; dirty = false; tag = tag; lru_counter = counter }

abbrev pub full_row : List CacheLine
full_row = used_line 1 3 ∷ used_line 2 1 ∷ used_line 3 2 ∷ used_line 4 4 ∷ []

abbrev pub full_cache : Cache
full_cache = record { sets = λ k. full_row; s = 2; e = 4; b = 9; t = 53; global_counter = 5 }

abbrev pub empty_cache : Cache
empty_cache = record {
  sets = λ k. free_line ∷ free_line ∷ free_line ∷ free_line ∷ [];
  s = 2;
  e = 4;
  b = 9;
  t = 53;
  global_counter = 0;
}

-- The line of 512 is held by context 1.
abbrev pub held : DirectoryEntry
held = record { processor_mask = false ∷ true ∷ []; status = exclusive }

abbrev pub held_directory : Table DirectoryEntry
held_directory = assign empty_table 512 held

-- The line of 512 is shared by context 0.
abbrev pub read : DirectoryEntry
read = record { processor_mask = true ∷ false ∷ []; status = shared }

abbrev pub read_directory : Table DirectoryEntry
read_directory = assign empty_table 512 read

abbrev pub msi_config : Config
msi_config = record {
  num_contexts = 2;
  protocol = msi;
  node_latency = pos 1;
  cache_latency = pos 1;
}

abbrev pub mesi_config : Config
mesi_config = record {
  num_contexts = 2;
  protocol = mesi;
  node_latency = pos 1;
  cache_latency = pos 1;
}

abbrev pub context_with : Table DirectoryEntry → Context
context_with directory = record {
  processor = record { curr_task = none; mem_action_queue = [] };
  handler = record {
    cache_line_status = empty_table;
    pending_inv_ack_count = empty_table;
    blocked_msg_map = empty_table;
  };
  directory = directory;
  cache = empty_cache;
  task_queue = [];
  completed_tasks = [];
  cache_msg_queue = [];
  incoming_msg_queue = [];
  current_mem_op = record { addr = 512; action_type = mem_write };
  successful = true;
  stats = no_stats;
}

abbrev pub world_with : Table DirectoryEntry → World
world_with directory id = context_with directory

abbrev pub write_request : Message
write_request = new_message 1 512 write_miss (pos 0)

abbrev pub read_request : Message
read_request = new_message 1 512 read_miss (pos 0)

abbrev start_task : ℕ → Task
start_task id = record {
  task_id = id;
  context_id = 0;
  successors = 2 ∷ [];
  predecessors = [];
  mem_ops = record { addr = 520; type = mem_read } ∷ [];
}

-- Task 2 waits for tasks 0 and 1.
abbrev pub task_of : ℕ → Task
task_of (suc (suc zero)) = record {
  task_id = 2;
  context_id = 1;
  successors = [];
  predecessors = 0 ∷ 1 ∷ [];
  mem_ops = [];
}
task_of id = start_task id

abbrev pub diamond : TaskGraph
diamond = record {
  number_of_contexts = 2;
  number_of_tasks = 3;
  first_task = task_of 0;
  get_task_by_id = task_of;
}
