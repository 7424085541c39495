-- ===== src/Handler/Cases.antt =====
-- The cases of `handleMessage` that MSIHandler.cpp and MESIHandler.cpp share, but for comments and
-- the names of variables.
use syncd_sim.Base.{
  ℕ, pos, Bool, true, false, not, ◌||◌, ◌==◌, ltb, if◌then◌else◌, get_or, pred_ℤ, is_zero_ℤ,
}
use syncd_sim.Base.Effects.{Exec, pure, require, skip, ◌>>=◌, ◌>>◌, assertion}
use syncd_sim.Types.{
  Message, MessageType, write_miss, read_miss, invalidate, invalidate_ack, invalidate_other,
  invalidate_other_ack, fetch, fetch_invalidate, data_value_reply, data_write_back, rollback,
  cache_update, ProtocolStatus, modified,
}
use syncd_sim.Directory.{is_shared, is_uncached}
use syncd_sim.Context.{
  Config, World, get_context, update_handler, update_directory_entry, lookup_directory_entry,
  home_node_id, set_successful, re_add_curr_mem_op,
}
use syncd_sim.Handler.{
  Handled, done, in_service, still_blocked, has_to_wait, find_owner, send_msg_to_node,
  send_msg_to_cache, invalidate_sharers, pop_blocked, put_line_status, insert_pending, put_pending,
  erase_pending,
}

-- Tests on the type of a message.
abbrev pub is_write_miss : MessageType → Bool
is_write_miss write_miss = true
is_write_miss _ = false

abbrev pub is_read_miss : MessageType → Bool
is_read_miss read_miss = true
is_read_miss _ = false

abbrev pub is_invalidate_other : MessageType → Bool
is_invalidate_other invalidate_other = true
is_invalidate_other _ = false

abbrev pub is_invalidate : MessageType → Bool
is_invalidate invalidate = true
is_invalidate _ = false

abbrev pub is_fetch_invalidate : MessageType → Bool
is_fetch_invalidate fetch_invalidate = true
is_fetch_invalidate _ = false

abbrev pub is_fetch : MessageType → Bool
is_fetch fetch = true
is_fetch _ = false

module _ (cfg : Config) (me : ℕ) where
  -- case WRITE_MISS. The entry is not read again after the directory changes.
  unfoldable pub handle_write_miss : Message → Bool → Exec World Handled
  handle_write_miss msg again = do
    c ← get_context me
    if has_to_wait c msg.addr again then pure still_blocked else do
      entry ← lookup_directory_entry cfg me msg.addr
      if is_uncached entry.status
          then (do
            send_msg_to_node cfg me msg.source_id msg.addr data_value_reply
            update_directory_entry cfg me msg.addr modified (pos msg.source_id)
            pure done)
          else if is_shared entry.status
          then (do
            n ← invalidate_sharers cfg me msg.addr (λ _. true) 0 0 entry.processor_mask
            update_handler me (insert_pending msg.addr (pos n))
            pure in_service)
          else do
            require (ltb (find_owner 0 entry.processor_mask) cfg.num_contexts) assertion
            send_msg_to_node cfg me (find_owner 0 entry.processor_mask) msg.addr fetch_invalidate
            pure in_service

  -- case INVALIDATE_OTHER
  unfoldable pub handle_invalidate_other : Message → Bool → Exec World Handled
  handle_invalidate_other msg again = do
    require (home_node_id cfg msg.addr == me) assertion
    c ← get_context me
    if has_to_wait c msg.addr again then pure still_blocked else do
      entry ← lookup_directory_entry cfg me msg.addr
      if not (is_shared entry.status)
          then (do send_msg_to_node cfg me msg.source_id msg.addr rollback; pure done)
          else do
            n ←
                invalidate_sharers cfg me msg.addr (λ id. not (msg.source_id == id)) 0 0
                  entry.processor_mask
            if ltb 0 n
                then (do update_handler me (insert_pending msg.addr (pos n)); pure in_service)
                else do
                  update_directory_entry cfg me msg.addr modified (pos msg.source_id)
                  send_msg_to_node cfg me msg.source_id msg.addr invalidate_other_ack
                  pure done

  -- case INVALIDATE_OTHER_ACK
  unfoldable pub handle_invalidate_other_ack : Message → Exec World Handled
  handle_invalidate_other_ack msg = do
    require (msg.source_id == home_node_id cfg msg.addr) assertion
    c ← get_context me
    require (c.current_mem_op.addr == msg.addr) assertion
    update_handler me (put_line_status msg.addr ProtocolStatus.m)
    send_msg_to_cache cfg me msg.addr cache_update
    pure done

  -- case ROLLBACK
  unfoldable pub handle_rollback : Exec World Handled
  handle_rollback = do re_add_curr_mem_op me; set_successful me true; pure done

  module _ (check : ℕ → Exec World (Unit {0})) where
    -- The last INVALIDATE_ACK: the request at the front of the queue gets the line.
    unfoldable pub grant_blocked : ℕ → Exec World (Unit {0})
    grant_blocked addr = do
      update_handler me (erase_pending addr)
      m ← pop_blocked me addr
      update_directory_entry cfg me addr modified (pos m.source_id)
      require (is_write_miss m.msg_type || is_invalidate_other m.msg_type) assertion
      if is_write_miss m.msg_type
          then send_msg_to_node cfg me m.source_id addr data_value_reply
          else send_msg_to_node cfg me m.source_id addr invalidate_other_ack
      check addr

    -- case INVALIDATE_ACK. `pendingInvAckCount[addr]` of a missing key is 0.
    unfoldable pub handle_invalidate_ack : Message → Exec World Handled
    handle_invalidate_ack msg = do
      require (home_node_id cfg msg.addr == me) assertion
      c ← get_context me
      let pending = pred_ℤ (get_or (c.handler.pending_inv_ack_count msg.addr) (pos 0))
      update_handler me (put_pending msg.addr pending)
      if is_zero_ℤ pending then grant_blocked msg.addr else skip
      pure done

    -- case CACHE_INVALIDATE_ACK
    unfoldable pub handle_cache_invalidate_ack : Message → Exec World Handled
    handle_cache_invalidate_ack msg = do
      m ← pop_blocked me msg.addr
      require (is_invalidate m.msg_type || is_fetch_invalidate m.msg_type) assertion
      if is_invalidate m.msg_type
          then send_msg_to_node cfg me m.source_id msg.addr invalidate_ack
          else send_msg_to_node cfg me m.source_id msg.addr data_write_back
      check msg.addr
      pure done

    -- case CACHE_FETCH_ACK
    unfoldable pub handle_cache_fetch_ack : Message → Exec World Handled
    handle_cache_fetch_ack msg = do
      m ← pop_blocked me msg.addr
      require (is_fetch m.msg_type) assertion
      send_msg_to_node cfg me m.source_id msg.addr data_write_back
      check msg.addr
      pure done
