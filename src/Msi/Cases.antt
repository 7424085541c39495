-- ===== src/Msi/Cases.antt =====
-- The cases of `MSIHandler::handleMessage` that differ from those of `MESIHandler`.
use syncd_sim.Base.{ℕ, pos, Bool, true, false, not, ◌||◌, ◌==◌, if◌then◌else◌, get_or}
use syncd_sim.Base.Effects.{Exec, pure, require, skip, ◌>>=◌, ◌>>◌, assertion}
use syncd_sim.Types.{
  Message, ProtocolStatus, cache_update, cache_invalidate, cache_fetch, invalidate_ack, fetch,
  data_value_reply, data_write_back, shared, modified, uncached, is_mem_write,
}
use syncd_sim.Directory.{is_shared, is_uncached}
use syncd_sim.Context.{
  Config, Context, World, get_context, update_handler, update_directory_entry,
  lookup_directory_entry, home_node_id, set_successful,
}
use syncd_sim.Handler.{
  Handled, done, in_service, still_blocked, has_to_wait, is_some, find_owner, send_msg_to_node,
  send_msg_to_cache, pop_blocked, insert_line_status, put_line_status, erase_line_status,
}
use syncd_sim.Handler.Cases.{is_write_miss, is_read_miss}

abbrev pub is_m : ProtocolStatus → Bool
is_m ProtocolStatus.m = true
is_m _ = false

-- `cacheLineStatus[addr]`: a missing key reads as 0, which is `M`.
abbrev pub line_status : Context → ℕ → ProtocolStatus
line_status c addr = get_or (c.handler.cache_line_status addr) ProtocolStatus.m

-- `cacheLineStatus.find(addr) != cacheLineStatus.end()`
abbrev pub is_cached : Context → ℕ → Bool
is_cached c addr = is_some (c.handler.cache_line_status addr)

module _ (cfg : Config) (me : ℕ) where
  -- case READ_MISS
  unfoldable pub handle_read_miss : Message → Bool → Exec World Handled
  handle_read_miss msg again = do
    c ← get_context me
    if has_to_wait c msg.addr again then pure still_blocked else do
      entry ← lookup_directory_entry cfg me msg.addr
      if is_shared entry.status || is_uncached entry.status
          then (do
            send_msg_to_node cfg me msg.source_id msg.addr data_value_reply
            update_directory_entry cfg me msg.addr shared (pos msg.source_id)
            pure done)
          else do
            send_msg_to_node cfg me (find_owner 0 entry.processor_mask) msg.addr fetch
            pure in_service

  -- case INVALIDATE
  unfoldable pub handle_invalidate : Message → Exec World Handled
  handle_invalidate msg = do
    c ← get_context me
    if not (is_cached c msg.addr)
        then (do send_msg_to_node cfg me msg.source_id msg.addr invalidate_ack; pure done)
        else do
          update_handler me (erase_line_status msg.addr)
          send_msg_to_cache cfg me msg.addr cache_invalidate
          pure in_service

  -- case FETCH
  unfoldable pub handle_fetch : Message → Exec World Handled
  handle_fetch msg = do
    c ← get_context me
    if not (is_cached c msg.addr) then pure done else do
      require (is_m (line_status c msg.addr)) assertion
      update_handler me (put_line_status msg.addr ProtocolStatus.s)
      send_msg_to_cache cfg me msg.addr cache_fetch
      pure in_service

  -- case FETCH_INVALIDATE
  unfoldable pub handle_fetch_invalidate : Message → Exec World Handled
  handle_fetch_invalidate msg = do
    c ← get_context me
    if not (is_cached c msg.addr) then pure done else do
      require (is_m (line_status c msg.addr)) assertion
      update_handler me (erase_line_status msg.addr)
      send_msg_to_cache cfg me msg.addr cache_invalidate
      pure in_service

  -- case DATA_VALUE_REPLY
  unfoldable pub handle_data_value_reply : Message → Exec World Handled
  handle_data_value_reply msg = do
    c ← get_context me
    require (not c.successful) assertion
    if is_mem_write c.current_mem_op.action_type
        then update_handler me (insert_line_status msg.addr ProtocolStatus.m)
        else update_handler me (insert_line_status msg.addr ProtocolStatus.s)
    send_msg_to_cache cfg me msg.addr cache_update
    pure done

  -- case CACHE_READ_REPLY
  unfoldable pub handle_cache_read_reply : Exec World Handled
  handle_cache_read_reply = do set_successful me true; pure done

  -- case CACHE_UPDATE_ACK
  unfoldable pub handle_cache_update_ack : Message → Exec World Handled
  handle_cache_update_ack msg = do
    c ← get_context me
    require (c.current_mem_op.addr == msg.addr) assertion
    set_successful me true
    pure done

  -- case CACHE_EVICTION_ALERT
  unfoldable pub handle_cache_eviction_alert : Message → Exec World Handled
  handle_cache_eviction_alert msg = do
    c ← get_context me
    if is_m (line_status c msg.addr)
        then send_msg_to_node cfg me (home_node_id cfg msg.addr) msg.addr data_write_back
        else skip
    update_handler me (erase_line_status msg.addr)
    pure done

  -- case DATA_WRITE_BACK
  unfoldable pub handle_data_write_back : (ℕ → Exec World (Unit {0})) → Message → Exec World Handled
  handle_data_write_back check msg = do
    c ← get_context me
    if is_some (c.handler.blocked_msg_map msg.addr)
        then (do
          m ← pop_blocked me msg.addr
          require (is_write_miss m.msg_type || is_read_miss m.msg_type) assertion
          send_msg_to_node cfg me m.source_id msg.addr data_value_reply
          if is_write_miss m.msg_type
              then update_directory_entry cfg me msg.addr modified (pos m.source_id)
              else update_directory_entry cfg me msg.addr shared (pos m.source_id)
          check msg.addr
          pure done)
        else do update_directory_entry cfg me msg.addr uncached (pos msg.source_id); pure done
