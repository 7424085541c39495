-- ===== src/Examples/Loops.antt =====
-- Loops on concrete queues.
use syncd_sim.Base.{◌≢◌, ◌≤◌, ◌≡◌, [], ◌∷◌, List, assign, empty_table, length}
use syncd_sim.Base.Effects.{err, out_of_fuel}
use syncd_sim.Types.{MemoryAction, mem_read, mem_write, mesi, iter_cap}
use syncd_sim.Context.{World}
use syncd_sim.Handler.{check_blocked_queue_at_address}
use syncd_sim.Node.{run_processor, populate}
use syncd_sim.Node.Actions.{take, split_all, populate-split_all, populate_le}
use syncd_sim.Mesi
use syncd_sim.Fuel.Processor.{run_processor_returns}
use syncd_sim.Fuel.Blocked.{check_blocked_queue_at_address_returns}
use syncd_sim.Examples.Data.{mesi_config, context_with, task_of, read_request, write_request}

-- Two tasks are ready.
abbrev ready_world : World
ready_world id = record (context_with empty_table) { task_queue = task_of 0 ∷ task_of 2 ∷ [] }

run_processor_returns_example : run_processor mesi_config 0 ready_world ≢ err out_of_fuel
run_processor_returns_example = run_processor_returns mesi_config 0 ready_world

-- Two requests wait for the line of 512.
abbrev waiting_world : World
waiting_world id = record (context_with empty_table) {
  handler = record {
    cache_line_status = empty_table;
    pending_inv_ack_count = empty_table;
    blocked_msg_map = assign empty_table 512 (read_request ∷ write_request ∷ []);
  };
}

check_blocked_queue_at_address_returns_example :
    check_blocked_queue_at_address 0 (Mesi.handle mesi_config 0) 512 waiting_world ≢ err out_of_fuel
check_blocked_queue_at_address_returns_example =
    check_blocked_queue_at_address_returns mesi mesi_config 0 512 waiting_world (tt, (tt, tt))

-- The second action runs over the end of its 64-byte line.
abbrev two_actions : List MemoryAction
two_actions = record { addr = 512; type = mem_read } ∷ record { addr = 572; type = mem_write } ∷ []

populate-split_all_example : populate 0 two_actions ≡ split_all (take iter_cap two_actions)
populate-split_all_example = populate-split_all two_actions

populate_le_example : length (populate 0 two_actions) ≤ 2000
populate_le_example = populate_le two_actions
