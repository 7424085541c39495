-- ===== src/Safety/Msi.antt =====
-- The invariant and `MSIHandler::handleMessage` and `handleMemOpRequest`.
use syncd_sim.Base.{ℕ, ◌<◌, ◌^◌, refl, Bool, true, not, ◌||◌, arith, ◌==◌}
use syncd_sim.Base.Effects.{Exec}
use syncd_sim.Types.{
  Message, MessageType, new_message, cache_read, cache_read_reply, cache_update, cache_update_ack,
  cache_invalidate, cache_invalidate_ack, cache_fetch, cache_fetch_ack, cache_eviction_alert,
  write_miss, read_miss, invalidate, invalidate_ack, invalidate_other, invalidate_other_ack, fetch,
  fetch_invalidate, data_value_reply, data_value_reply_e, data_write_back, rollback, ProtocolStatus,
  is_mem_write, shared, modified, uncached,
}
use syncd_sim.Directory.{is_shared, is_uncached}
use syncd_sim.Context.{Config, World, home_node_id, add_to_cache_msg_queue}
use syncd_sim.Context.Home.{IsConfig, home_node_id-lt}
use syncd_sim.Handler.{
  send_msg_to_node, find_owner, has_to_wait, is_some, erase_line_status, put_line_status,
  insert_line_status,
}
use syncd_sim.Handler.Cases.{is_write_miss, is_read_miss}
use syncd_sim.Msi.{is_s, handle_mem_op_request, switch, handle}
use syncd_sim.Msi.Cases.{
  is_m, line_status, is_cached, handle_read_miss, handle_invalidate, handle_fetch,
  handle_fetch_invalidate, handle_data_value_reply, handle_cache_read_reply,
  handle_cache_update_ack, handle_cache_eviction_alert, handle_data_write_back,
}
use syncd_sim.Safety.{IsMessage, IsSafe}
use syncd_sim.Safety.Rules.{
  Any, IsSafe-bind, IsSafe-then, IsSafe-if, IsSafe-require, IsSafe-pure, IsSafe-skip, find_owner-lt,
}
use syncd_sim.Safety.Primitives.{
  lookup_directory_entry-IsSafe, update_directory_entry-IsSafe, send_msg_to_node-IsSafe,
  pop_blocked-IsSafe,
}
use syncd_sim.Safety.Members.{
  get_context-IsSafe, set_successful-IsSafe, count-IsSafe, add_to_cache_msg_queue-IsSafe,
}
use syncd_sim.Safety.Shared.{
  handler_flags-IsSafe, reply-IsSafe, to_cache-IsSafe, answer-IsSafe, handle_write_miss-IsSafe,
  handle_invalidate_other-IsSafe, handle_invalidate_other_ack-IsSafe, handle_rollback-IsSafe,
  handle_invalidate_ack-IsSafe, handle_cache_invalidate_ack-IsSafe, handle_cache_fetch_ack-IsSafe,
}

module _ (cfg : Config) (me : ℕ) (ok_cfg : IsConfig cfg) (here : me < cfg.num_contexts) where
  -- A request to the home node of a line.
  pub to_home-IsSafe :
      (addr : ℕ) (type : MessageType)
      → addr < 2 ^ 48
      → IsSafe cfg {A = Unit} Any (send_msg_to_node cfg me (home_node_id cfg addr) addr type)
  to_home-IsSafe addr type h =
      send_msg_to_node-IsSafe cfg me here (home_node_id cfg addr) addr type
        (home_node_id-lt cfg addr ok_cfg h) h

  pub ask_cache-IsSafe :
      (addr : ℕ) (type : MessageType)
      → addr < 2 ^ 48
      → IsSafe cfg {A = Unit} Any
          (add_to_cache_msg_queue me (new_message me addr type cfg.cache_latency))
  ask_cache-IsSafe addr type h =
      add_to_cache_msg_queue-IsSafe cfg me _ (record { sender = here; address = h })

  pub handle_mem_op_request-IsSafe : IsSafe cfg {A = Unit} Any (handle_mem_op_request cfg me)
  unfolding handle_mem_op_request
  handle_mem_op_request-IsSafe = IsSafe-bind (get_context-IsSafe cfg me) λ c v.
      IsSafe-if (is_mem_write c.current_mem_op.action_type)
        (λ _.
          IsSafe-if (not (is_cached c c.current_mem_op.addr))
            (λ _. IsSafe-then (count-IsSafe cfg me _) (to_home-IsSafe _ _ v.operation))
            λ _.
              IsSafe-if (is_s (line_status c c.current_mem_op.addr))
                (λ _.
                  IsSafe-then (count-IsSafe cfg me _)
                    (IsSafe-then (count-IsSafe cfg me _) (to_home-IsSafe _ _ v.operation)))
                λ _.
                  IsSafe-then (count-IsSafe cfg me _)
                    (IsSafe-then (count-IsSafe cfg me _) (ask_cache-IsSafe _ _ v.operation)))
        λ _.
          IsSafe-if (not (is_cached c c.current_mem_op.addr))
            (λ _. IsSafe-then (count-IsSafe cfg me _) (to_home-IsSafe _ _ v.operation))
            λ _. IsSafe-then (count-IsSafe cfg me _) (ask_cache-IsSafe _ _ v.operation)

  module _ (msg : Message) (v : IsMessage cfg.num_contexts msg) where
    handle_read_miss-IsSafe : (again : Bool) → IsSafe cfg Any (handle_read_miss cfg me msg again)
    unfolding handle_read_miss
    handle_read_miss-IsSafe again = IsSafe-bind (get_context-IsSafe cfg me) λ c _.
        IsSafe-if (has_to_wait c msg.addr again) (λ _. IsSafe-pure _)
          λ _. IsSafe-bind (lookup_directory_entry-IsSafe cfg me msg.addr) λ entry e.
            IsSafe-if (is_shared entry.status || is_uncached entry.status)
              (λ _. IsSafe-then (reply-IsSafe cfg me here msg v _) (
                IsSafe-then
                  (update_directory_entry-IsSafe cfg me msg.addr msg.source_id shared v.sender)
                  (IsSafe-pure _)))
              λ u.
                IsSafe-then
                  (send_msg_to_node-IsSafe cfg me here (find_owner 0 entry.processor_mask) msg.addr
                    _ (find_owner-lt cfg.num_contexts entry e (ground arith) (ground arith))
                    v.address)
                  (IsSafe-pure _)

    handle_invalidate-IsSafe : IsSafe cfg Any (handle_invalidate cfg me msg)
    unfolding handle_invalidate
    handle_invalidate-IsSafe = IsSafe-bind (get_context-IsSafe cfg me) λ c _.
        IsSafe-if (not (is_cached c msg.addr))
          (λ _. IsSafe-then (reply-IsSafe cfg me here msg v _) (IsSafe-pure _))
          λ _.
            IsSafe-then (handler_flags-IsSafe cfg me (erase_line_status msg.addr) (λ h. refl))
              (IsSafe-then (to_cache-IsSafe cfg me here msg v _) (IsSafe-pure _))

    handle_fetch-IsSafe : IsSafe cfg Any (handle_fetch cfg me msg)
    unfolding handle_fetch
    handle_fetch-IsSafe = IsSafe-bind (get_context-IsSafe cfg me) λ c _.
        IsSafe-if (not (is_cached c msg.addr)) (λ _. IsSafe-pure _)
          λ _. IsSafe-require (is_m (line_status c msg.addr)) λ _.
            IsSafe-then
              (handler_flags-IsSafe cfg me (put_line_status msg.addr ProtocolStatus.s) (λ h. refl))
              (IsSafe-then (to_cache-IsSafe cfg me here msg v _) (IsSafe-pure _))

    handle_fetch_invalidate-IsSafe : IsSafe cfg Any (handle_fetch_invalidate cfg me msg)
    unfolding handle_fetch_invalidate
    handle_fetch_invalidate-IsSafe = IsSafe-bind (get_context-IsSafe cfg me) λ c _.
        IsSafe-if (not (is_cached c msg.addr)) (λ _. IsSafe-pure _)
          λ _. IsSafe-require (is_m (line_status c msg.addr)) λ _.
            IsSafe-then (handler_flags-IsSafe cfg me (erase_line_status msg.addr) (λ h. refl))
              (IsSafe-then (to_cache-IsSafe cfg me here msg v _) (IsSafe-pure _))

    handle_data_value_reply-IsSafe : IsSafe cfg Any (handle_data_value_reply cfg me msg)
    unfolding handle_data_value_reply
    handle_data_value_reply-IsSafe = IsSafe-bind (get_context-IsSafe cfg me) λ c _.
        IsSafe-require (not c.successful) λ _.
          IsSafe-then
            (IsSafe-if (is_mem_write c.current_mem_op.action_type)
              (λ _.
                handler_flags-IsSafe cfg me (insert_line_status msg.addr ProtocolStatus.m)
                  (λ h. refl))
              (λ _.
                handler_flags-IsSafe cfg me (insert_line_status msg.addr ProtocolStatus.s)
                  (λ h. refl)))
            (IsSafe-then (to_cache-IsSafe cfg me here msg v _) (IsSafe-pure _))

    handle_cache_update_ack-IsSafe : IsSafe cfg Any (handle_cache_update_ack cfg me msg)
    unfolding handle_cache_update_ack
    handle_cache_update_ack-IsSafe = IsSafe-bind (get_context-IsSafe cfg me) λ c _.
        IsSafe-require (c.current_mem_op.addr == msg.addr)
          λ _. IsSafe-then (set_successful-IsSafe cfg me true) (IsSafe-pure _)

    handle_cache_eviction_alert-IsSafe : IsSafe cfg Any (handle_cache_eviction_alert cfg me msg)
    unfolding handle_cache_eviction_alert
    handle_cache_eviction_alert-IsSafe = IsSafe-bind (get_context-IsSafe cfg me) λ c _.
        IsSafe-then
          (IsSafe-if (is_m (line_status c msg.addr)) (λ _. to_home-IsSafe msg.addr _ v.address)
            (λ _. IsSafe-skip))
          (IsSafe-then (handler_flags-IsSafe cfg me (erase_line_status msg.addr) (λ h. refl))
            (IsSafe-pure _))

  handle_cache_read_reply-IsSafe : IsSafe cfg Any (handle_cache_read_reply cfg me)
  unfolding handle_cache_read_reply
  handle_cache_read_reply-IsSafe = IsSafe-then (set_successful-IsSafe cfg me true) (IsSafe-pure _)

  module _ (check : ℕ → Exec World (Unit {0}))
      (check-IsSafe : (addr : ℕ) → IsSafe cfg {A = Unit} Any (check addr)) (msg : Message)
      (v : IsMessage cfg.num_contexts msg) where
    handle_data_write_back-IsSafe : IsSafe cfg Any (handle_data_write_back cfg me check msg)
    unfolding handle_data_write_back
    handle_data_write_back-IsSafe = IsSafe-bind (get_context-IsSafe cfg me) λ c _.
        IsSafe-if (is_some (c.handler.blocked_msg_map msg.addr))
          (λ _. IsSafe-bind (pop_blocked-IsSafe cfg me msg.addr) λ m k.
            IsSafe-require (is_write_miss m.msg_type || is_read_miss m.msg_type) λ _.
              IsSafe-then (answer-IsSafe cfg me here msg v m _ k) (
                IsSafe-then
                  (IsSafe-if (is_write_miss m.msg_type)
                    (λ _.
                      update_directory_entry-IsSafe cfg me msg.addr m.source_id modified k.sender)
                    (λ _.
                      update_directory_entry-IsSafe cfg me msg.addr m.source_id shared k.sender))
                  (IsSafe-then (check-IsSafe msg.addr) (IsSafe-pure _))))
          λ _.
            IsSafe-then
              (update_directory_entry-IsSafe cfg me msg.addr msg.source_id uncached v.sender)
              (IsSafe-pure _)

    switch-IsSafe :
        (type : MessageType) (again : Bool) → IsSafe cfg Any (switch cfg me check type msg again)
    unfolding switch
    switch-IsSafe read_miss again = handle_read_miss-IsSafe msg v again
    switch-IsSafe write_miss again = handle_write_miss-IsSafe cfg me here msg v again
    switch-IsSafe invalidate again = handle_invalidate-IsSafe msg v
    switch-IsSafe invalidate_other again = handle_invalidate_other-IsSafe cfg me here msg v again
    switch-IsSafe invalidate_ack again =
        handle_invalidate_ack-IsSafe cfg me here msg v check check-IsSafe
    switch-IsSafe invalidate_other_ack again = handle_invalidate_other_ack-IsSafe cfg me here msg v
    switch-IsSafe fetch again = handle_fetch-IsSafe msg v
    switch-IsSafe fetch_invalidate again = handle_fetch_invalidate-IsSafe msg v
    switch-IsSafe data_value_reply again = handle_data_value_reply-IsSafe msg v
    switch-IsSafe data_write_back again = handle_data_write_back-IsSafe
    switch-IsSafe cache_read_reply again = handle_cache_read_reply-IsSafe
    switch-IsSafe cache_update_ack again = handle_cache_update_ack-IsSafe msg v
    switch-IsSafe cache_invalidate_ack again =
        handle_cache_invalidate_ack-IsSafe cfg me here msg v check check-IsSafe
    switch-IsSafe cache_fetch_ack again =
        handle_cache_fetch_ack-IsSafe cfg me here msg v check check-IsSafe
    switch-IsSafe cache_eviction_alert again = handle_cache_eviction_alert-IsSafe msg v
    switch-IsSafe rollback again = handle_rollback-IsSafe cfg me here msg v
    switch-IsSafe cache_read again = IsSafe-pure _
    switch-IsSafe cache_update again = IsSafe-pure _
    switch-IsSafe cache_invalidate again = IsSafe-pure _
    switch-IsSafe cache_fetch again = IsSafe-pure _
    switch-IsSafe data_value_reply_e again = IsSafe-pure _

    pub handle-IsSafe : (again : Bool) → IsSafe cfg Any (handle cfg me check msg again)
    unfolding handle
    handle-IsSafe again = IsSafe-require (not msg.serviced) λ _. switch-IsSafe msg.msg_type again
