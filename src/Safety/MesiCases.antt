-- ===== src/Safety/MesiCases.antt =====
-- The invariant and the cases of `MESIHandler::handleMessage`, and its `handleMemOpRequest`.
use syncd_sim.Base.{ℕ, ◌<◌, ◌^◌, refl, Bool, true, not, ltb, ◌==◌}
use syncd_sim.Types.{Message, ProtocolStatus, is_mem_write, is_mem_read, shared, exclusive}
use syncd_sim.Directory.{is_shared, is_uncached}
use syncd_sim.Context.{Config, home_node_id}
use syncd_sim.Context.Home.{IsConfig}
use syncd_sim.Handler.{
  find_owner, has_to_wait, erase_line_status, put_line_status, insert_line_status,
}
use syncd_sim.Msi.{is_s}
use syncd_sim.Mesi.{is_e, handle_mem_op_request}
use syncd_sim.Msi.Cases.{is_m, line_status, is_cached}
use syncd_sim.Mesi.Cases.{
  is_m_or_e, handle_read_miss, handle_invalidate, handle_fetch, handle_fetch_invalidate,
  handle_data_value_reply, handle_data_value_reply_e, handle_cache_reply,
  handle_cache_eviction_alert, answer_read_miss,
}
use syncd_sim.Safety.{IsMessage, IsSafe}
use syncd_sim.Safety.Rules.{
  Any, IsSafe-bind, IsSafe-then, IsSafe-if, IsSafe-require, IsSafe-pure, IsSafe-skip, find_owner-lt,
}
use syncd_sim.Safety.Primitives.{
  lookup_directory_entry-IsSafe, update_directory_entry-IsSafe, send_msg_to_node-IsSafe,
}
use syncd_sim.Safety.Members.{get_context-IsSafe, set_successful-IsSafe, count-IsSafe}
use syncd_sim.Safety.Msi.{to_home-IsSafe, ask_cache-IsSafe}
use syncd_sim.Safety.Shared.{handler_flags-IsSafe, reply-IsSafe, to_cache-IsSafe}

module _ (cfg : Config) (me : ℕ) (ok_cfg : IsConfig cfg) (here : me < cfg.num_contexts) where
  pub handle_mem_op_request-IsSafe : IsSafe cfg {A = Unit} Any (handle_mem_op_request cfg me)
  unfolding handle_mem_op_request
  handle_mem_op_request-IsSafe = IsSafe-bind (get_context-IsSafe cfg me) λ c v.
      IsSafe-if (is_mem_write c.current_mem_op.action_type)
        (λ _.
          IsSafe-if (not (is_cached c c.current_mem_op.addr))
            (λ _.
              IsSafe-then (count-IsSafe cfg me _)
                (to_home-IsSafe cfg me ok_cfg here _ _ v.operation))
            λ _.
              IsSafe-if (is_s (line_status c c.current_mem_op.addr))
                (λ _. IsSafe-then (count-IsSafe cfg me _) (
                  IsSafe-then (count-IsSafe cfg me _)
                    (to_home-IsSafe cfg me ok_cfg here _ _ v.operation)))
                λ _.
                  IsSafe-if (is_m (line_status c c.current_mem_op.addr))
                    (λ _. IsSafe-then (count-IsSafe cfg me _) (
                      IsSafe-then (count-IsSafe cfg me _)
                        (ask_cache-IsSafe cfg me ok_cfg here _ _ v.operation)))
                    λ _. IsSafe-then (count-IsSafe cfg me _) (
                      IsSafe-require (is_e (line_status c c.current_mem_op.addr)) λ _.
                        IsSafe-then (count-IsSafe cfg me _) (
                          IsSafe-then (ask_cache-IsSafe cfg me ok_cfg here _ _ v.operation) (
                            handler_flags-IsSafe cfg me
                              (put_line_status c.current_mem_op.addr ProtocolStatus.m)
                              (λ h. refl)))))
        λ _.
          IsSafe-if (not (is_cached c c.current_mem_op.addr))
            (λ _.
              IsSafe-then (count-IsSafe cfg me _)
                (to_home-IsSafe cfg me ok_cfg here _ _ v.operation))
            λ _.
              IsSafe-then (count-IsSafe cfg me _)
                (ask_cache-IsSafe cfg me ok_cfg here _ _ v.operation)

  module _ (msg : Message) (v : IsMessage cfg.num_contexts msg) where
    pub handle_read_miss-IsSafe :
        (again : Bool) → IsSafe cfg Any (handle_read_miss cfg me msg again)
    unfolding handle_read_miss
    handle_read_miss-IsSafe again = IsSafe-require (me == home_node_id cfg msg.addr) λ _.
        IsSafe-bind (get_context-IsSafe cfg me) λ c _.
          IsSafe-if (has_to_wait c msg.addr again) (λ _. IsSafe-pure _)
            λ _. IsSafe-bind (lookup_directory_entry-IsSafe cfg me msg.addr) λ entry e.
              IsSafe-if (is_shared entry.status)
                (λ _. IsSafe-then (reply-IsSafe cfg me here msg v _) (
                  IsSafe-then
                    (update_directory_entry-IsSafe cfg me msg.addr msg.source_id shared v.sender)
                    (IsSafe-pure _)))
                λ s.
                  IsSafe-if (is_uncached entry.status)
                    (λ _. IsSafe-then (reply-IsSafe cfg me here msg v _) (
                      IsSafe-then
                        (update_directory_entry-IsSafe cfg me msg.addr msg.source_id exclusive
                          v.sender)
                        (IsSafe-pure _)))
                    λ u.
                      IsSafe-require (ltb (find_owner 0 entry.processor_mask) cfg.num_contexts) λ _.
                        IsSafe-then
                          (send_msg_to_node-IsSafe cfg me here (find_owner 0 entry.processor_mask)
                            msg.addr _ (find_owner-lt cfg.num_contexts entry e s u) v.address)
                          (IsSafe-pure _)

    pub handle_invalidate-IsSafe : IsSafe cfg Any (handle_invalidate cfg me msg)
    unfolding handle_invalidate
    handle_invalidate-IsSafe = IsSafe-require (msg.source_id == home_node_id cfg msg.addr) λ _.
        IsSafe-bind (get_context-IsSafe cfg me) λ c _.
          IsSafe-if (not (is_cached c msg.addr))
            (λ _. IsSafe-then (reply-IsSafe cfg me here msg v _) (IsSafe-pure _))
            λ _.
              IsSafe-then (handler_flags-IsSafe cfg me (erase_line_status msg.addr) (λ h. refl))
                (IsSafe-then (to_cache-IsSafe cfg me here msg v _) (IsSafe-pure _))

    pub handle_fetch-IsSafe : IsSafe cfg Any (handle_fetch cfg me msg)
    unfolding handle_fetch
    handle_fetch-IsSafe = IsSafe-bind (get_context-IsSafe cfg me) λ c _.
        IsSafe-if (not (is_cached c msg.addr)) (λ _. IsSafe-pure _)
          λ _. IsSafe-require (is_m_or_e (line_status c msg.addr)) λ _.
            IsSafe-then
              (handler_flags-IsSafe cfg me (put_line_status msg.addr ProtocolStatus.s) (λ h. refl))
              (IsSafe-then (to_cache-IsSafe cfg me here msg v _) (IsSafe-pure _))

    pub handle_fetch_invalidate-IsSafe : IsSafe cfg Any (handle_fetch_invalidate cfg me msg)
    unfolding handle_fetch_invalidate
    handle_fetch_invalidate-IsSafe = IsSafe-bind (get_context-IsSafe cfg me) λ c _.
        IsSafe-if (not (is_cached c msg.addr)) (λ _. IsSafe-pure _)
          λ _. IsSafe-require (is_m_or_e (line_status c msg.addr)) λ _.
            IsSafe-then (handler_flags-IsSafe cfg me (erase_line_status msg.addr) (λ h. refl))
              (IsSafe-then (to_cache-IsSafe cfg me here msg v _) (IsSafe-pure _))

    pub handle_data_value_reply-IsSafe : IsSafe cfg Any (handle_data_value_reply cfg me msg)
    unfolding handle_data_value_reply
    handle_data_value_reply-IsSafe = IsSafe-bind (get_context-IsSafe cfg me) λ c _.
        IsSafe-require (not c.successful) λ _. IsSafe-require (not (is_cached c msg.addr)) λ _.
          IsSafe-then
            (IsSafe-if (is_mem_write c.current_mem_op.action_type)
              (λ _.
                handler_flags-IsSafe cfg me (insert_line_status msg.addr ProtocolStatus.m)
                  (λ h. refl))
              (λ _.
                handler_flags-IsSafe cfg me (insert_line_status msg.addr ProtocolStatus.s)
                  (λ h. refl)))
            (IsSafe-then (to_cache-IsSafe cfg me here msg v _) (IsSafe-pure _))

    pub handle_data_value_reply_e-IsSafe : IsSafe cfg Any (handle_data_value_reply_e cfg me msg)
    unfolding handle_data_value_reply_e
    handle_data_value_reply_e-IsSafe = IsSafe-bind (get_context-IsSafe cfg me) λ c _.
        IsSafe-require (not c.successful) λ _.
          IsSafe-require (is_mem_read c.current_mem_op.action_type) λ _.
            IsSafe-then
              (handler_flags-IsSafe cfg me (insert_line_status msg.addr ProtocolStatus.e)
                (λ h. refl))
              (IsSafe-then (to_cache-IsSafe cfg me here msg v _) (IsSafe-pure _))

    pub handle_cache_reply-IsSafe : IsSafe cfg Any (handle_cache_reply cfg me msg)
    unfolding handle_cache_reply
    handle_cache_reply-IsSafe = IsSafe-bind (get_context-IsSafe cfg me) λ c _.
        IsSafe-require (c.current_mem_op.addr == msg.addr) λ _.
          IsSafe-require (not c.successful)
            λ _. IsSafe-then (set_successful-IsSafe cfg me true) (IsSafe-pure _)

    pub handle_cache_eviction_alert-IsSafe : IsSafe cfg Any (handle_cache_eviction_alert cfg me msg)
    unfolding handle_cache_eviction_alert
    handle_cache_eviction_alert-IsSafe = IsSafe-bind (get_context-IsSafe cfg me) λ c _.
        IsSafe-then
          (IsSafe-if (is_m_or_e (line_status c msg.addr))
            (λ _. to_home-IsSafe cfg me ok_cfg here msg.addr _ v.address) (λ _. IsSafe-skip))
          (IsSafe-then (handler_flags-IsSafe cfg me (erase_line_status msg.addr) (λ h. refl))
            (IsSafe-pure _))

  pub answer_read_miss-IsSafe :
      (source_id addr : ℕ)
      → source_id < cfg.num_contexts
      → addr < 2 ^ 48
      → IsSafe cfg {A = Unit} Any (answer_read_miss cfg me source_id addr)
  unfolding answer_read_miss
  answer_read_miss-IsSafe source_id addr s a =
      IsSafe-bind (lookup_directory_entry-IsSafe cfg me addr) λ entry e.
        IsSafe-if (is_uncached entry.status)
          (λ _.
            IsSafe-then (send_msg_to_node-IsSafe cfg me here source_id addr _ s a)
              (update_directory_entry-IsSafe cfg me addr source_id exclusive s))
          λ _.
            IsSafe-then (send_msg_to_node-IsSafe cfg me here source_id addr _ s a)
              (update_directory_entry-IsSafe cfg me addr source_id shared s)
