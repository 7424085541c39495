-- ===== src/Msi.antt =====
-- backend/Simulator/MSIHandler.hpp and MSIHandler.cpp.
pub mod Cases
use syncd_sim.Base.{ℕ, Bool, true, false, not, if◌then◌else◌}
use syncd_sim.Base.Effects.{Exec, gets, pure, require, skip, ◌>>=◌, ◌>>◌, assertion}
use syncd_sim.Types.{
  Message, MessageType, new_message, cache_read, cache_read_reply, cache_update, cache_update_ack,
  cache_invalidate, cache_invalidate_ack, cache_fetch, cache_fetch_ack, cache_eviction_alert,
  write_miss, read_miss, invalidate, invalidate_ack, invalidate_other, invalidate_other_ack, fetch,
  fetch_invalidate, data_value_reply, data_value_reply_e, data_write_back, rollback, ProtocolStatus,
  is_mem_write,
}
use syncd_sim.Context.{
  Config, World, get_context, count, add_to_cache_msg_queue, home_node_id, inc_cache_hit,
  inc_cache_miss, inc_num_invalidations, inc_m_state_count,
}
use syncd_sim.Handler.{Handled, done, send_msg_to_node, check_incoming_msg_queue}
use syncd_sim.Handler.Cases.{
  handle_write_miss, handle_invalidate_other, handle_invalidate_other_ack, handle_rollback,
  handle_invalidate_ack, handle_cache_invalidate_ack, handle_cache_fetch_ack,
}
use Cases.{
  is_cached, line_status, handle_read_miss, handle_invalidate, handle_fetch,
  handle_fetch_invalidate, handle_data_value_reply, handle_cache_read_reply,
  handle_cache_update_ack, handle_cache_eviction_alert, handle_data_write_back,
}

abbrev pub is_s : ProtocolStatus → Bool
is_s ProtocolStatus.s = true
is_s _ = false

module _ (cfg : Config) (me : ℕ) where
  -- `handleMemOpRequest`
  unfoldable pub handle_mem_op_request : Exec World (Unit {0})
  handle_mem_op_request = do
    c ← get_context me
    let addr = c.current_mem_op.addr
    if is_mem_write c.current_mem_op.action_type
        then (if not (is_cached c addr)
            then (do
              count me inc_cache_miss
              send_msg_to_node cfg me (home_node_id cfg addr) addr write_miss)
            else if is_s (line_status c addr)
            then (do
              count me inc_cache_hit
              count me inc_num_invalidations
              send_msg_to_node cfg me (home_node_id cfg addr) addr invalidate_other)
            else do
              count me inc_cache_hit
              count me inc_m_state_count
              add_to_cache_msg_queue me (new_message me addr cache_update cfg.cache_latency))
        else if not (is_cached c addr)
        then (do
          count me inc_cache_miss
          send_msg_to_node cfg me (home_node_id cfg addr) addr read_miss)
        else do
          count me inc_cache_hit
          add_to_cache_msg_queue me (new_message me addr cache_read cfg.cache_latency)

  -- The `switch` of `handleMessage`. A type with no case does nothing.
  unfoldable pub switch :
      (ℕ → Exec World (Unit {0})) → MessageType → Message → Bool → Exec World Handled
  switch check read_miss msg again = handle_read_miss cfg me msg again
  switch check write_miss msg again = handle_write_miss cfg me msg again
  switch check invalidate msg again = handle_invalidate cfg me msg
  switch check invalidate_other msg again = handle_invalidate_other cfg me msg again
  switch check invalidate_ack msg again = handle_invalidate_ack cfg me check msg
  switch check invalidate_other_ack msg again = handle_invalidate_other_ack cfg me msg
  switch check fetch msg again = handle_fetch cfg me msg
  switch check fetch_invalidate msg again = handle_fetch_invalidate cfg me msg
  switch check data_value_reply msg again = handle_data_value_reply cfg me msg
  switch check data_write_back msg again = handle_data_write_back cfg me check msg
  switch check cache_read_reply msg again = handle_cache_read_reply cfg me
  switch check cache_update_ack msg again = handle_cache_update_ack cfg me msg
  switch check cache_invalidate_ack msg again = handle_cache_invalidate_ack cfg me check msg
  switch check cache_fetch_ack msg again = handle_cache_fetch_ack cfg me check msg
  switch check cache_eviction_alert msg again = handle_cache_eviction_alert cfg me msg
  switch check rollback msg again = handle_rollback cfg me
  switch check cache_read msg again = pure done
  switch check cache_update msg again = pure done
  switch check cache_invalidate msg again = pure done
  switch check cache_fetch msg again = pure done
  switch check data_value_reply_e msg again = pure done

  -- `handleMessage`
  unfoldable pub handle : (ℕ → Exec World (Unit {0})) → Message → Bool → Exec World Handled
  handle check msg again = do
    require (not msg.serviced) assertion
    switch check msg.msg_type msg again

  -- `checkIncomingMsgQueue`, with a bound on the messages taken.
  unfoldable pub check_incoming : ℕ → Exec World (Unit {0})
  check_incoming fuel = check_incoming_msg_queue me handle fuel
