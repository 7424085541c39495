-- ===== src/Safety/Shared.antt =====
-- The invariant and the cases that the two handlers share.
use syncd_sim.Base.{
  ℕ, pos, ◌<◌, ◌≡◌, refl, Bool, true, not, ◌||◌, arith, ltb, ◌==◌, is_zero_ℤ, pred_ℤ, get_or,
}
use syncd_sim.Base.Effects.{Exec}
use syncd_sim.Types.{Message, MessageType, modified, ProtocolStatus}
use syncd_sim.Directory.{is_shared, is_uncached}
use syncd_sim.Context.{Config, World, Handler, home_node_id, update_handler}
use syncd_sim.Handler.{
  send_msg_to_node, send_msg_to_cache, find_owner, insert_pending, put_pending, erase_pending,
  put_line_status, has_to_wait,
}
use syncd_sim.Handler.Cases.{
  handle_write_miss, handle_invalidate_other, handle_invalidate_other_ack, handle_rollback,
  grant_blocked, handle_invalidate_ack, handle_cache_invalidate_ack, handle_cache_fetch_ack,
  is_write_miss, is_invalidate_other, is_invalidate, is_fetch_invalidate, is_fetch,
}
use syncd_sim.Safety.{IsMessage, IsSafe}
use syncd_sim.Safety.Rules.{
  Any, IsSafe-bind, IsSafe-then, IsSafe-if, IsSafe-require, IsSafe-pure, IsSafe-skip, find_owner-lt,
}
use syncd_sim.Safety.Primitives.{
  lookup_directory_entry-IsSafe, update_directory_entry-IsSafe, send_msg_to_node-IsSafe,
  send_msg_to_cache-IsSafe, invalidate_sharers-IsSafe, pop_blocked-IsSafe,
}
use syncd_sim.Safety.Members.{
  get_context-IsSafe, update_handler-IsSafe, set_successful-IsSafe, re_add_curr_mem_op-IsSafe,
}

module _ (cfg : Config) (me : ℕ) where
  -- A change of the handler that keeps the queues of blocked messages.
  pub handler_flags-IsSafe :
      (f : Handler → Handler)
      → ((h : Handler) → (f h).blocked_msg_map ≡ h.blocked_msg_map)
      → IsSafe cfg {A = Unit} Any (update_handler me f)
  handler_flags-IsSafe f same =
      update_handler-IsSafe cfg me f (λ h old addr q e. old addr q (rw (same h) at e))

module _ (cfg : Config) (me : ℕ) (here : me < cfg.num_contexts) (msg : Message)
    (v : IsMessage cfg.num_contexts msg) where
  -- A message to the sender of another.
  pub reply-IsSafe :
      (type : MessageType)
      → IsSafe cfg {A = Unit} Any (send_msg_to_node cfg me msg.source_id msg.addr type)
  reply-IsSafe type =
      send_msg_to_node-IsSafe cfg me here msg.source_id msg.addr type v.sender v.address

  pub to_cache-IsSafe :
      (type : MessageType) → IsSafe cfg {A = Unit} Any (send_msg_to_cache cfg me msg.addr type)
  to_cache-IsSafe type = send_msg_to_cache-IsSafe cfg me here msg.addr type v.address

  pub handle_write_miss-IsSafe :
      (again : Bool) → IsSafe cfg Any (handle_write_miss cfg me msg again)
  unfolding handle_write_miss
  handle_write_miss-IsSafe again = IsSafe-bind (get_context-IsSafe cfg me) λ c _.
      IsSafe-if (has_to_wait c msg.addr again) (λ _. IsSafe-pure _)
        λ _. IsSafe-bind (lookup_directory_entry-IsSafe cfg me msg.addr) λ entry e.
          IsSafe-if (is_uncached entry.status)
            (λ _. IsSafe-then (reply-IsSafe _) (
              IsSafe-then
                (update_directory_entry-IsSafe cfg me msg.addr msg.source_id modified v.sender)
                (IsSafe-pure _)))
            λ u.
              IsSafe-if (is_shared entry.status)
                (λ _.
                  IsSafe-bind
                    (invalidate_sharers-IsSafe cfg me here msg.addr _ 0 0 entry.processor_mask
                      v.address (omega (arith, e.width)))
                    λ n _.
                      IsSafe-then
                        (handler_flags-IsSafe cfg me (insert_pending msg.addr (pos n)) (λ h. refl))
                        (IsSafe-pure _))
                λ s. IsSafe-require (ltb (find_owner 0 entry.processor_mask) cfg.num_contexts) λ _.
                  IsSafe-then
                    (send_msg_to_node-IsSafe cfg me here _ msg.addr _
                      (find_owner-lt cfg.num_contexts entry e s u) v.address)
                    (IsSafe-pure _)

  pub handle_invalidate_other-IsSafe :
      (again : Bool) → IsSafe cfg Any (handle_invalidate_other cfg me msg again)
  unfolding handle_invalidate_other
  handle_invalidate_other-IsSafe again = IsSafe-require (home_node_id cfg msg.addr == me) λ _.
      IsSafe-bind (get_context-IsSafe cfg me) λ c _.
        IsSafe-if (has_to_wait c msg.addr again) (λ _. IsSafe-pure _)
          λ _. IsSafe-bind (lookup_directory_entry-IsSafe cfg me msg.addr) λ entry e.
            IsSafe-if (not (is_shared entry.status))
              (λ _. IsSafe-then (reply-IsSafe _) (IsSafe-pure _))
              λ _.
                IsSafe-bind
                  (invalidate_sharers-IsSafe cfg me here msg.addr _ 0 0 entry.processor_mask
                    v.address (omega (arith, e.width)))
                  λ n _.
                    IsSafe-if (ltb 0 n)
                      (λ _.
                        IsSafe-then
                          (handler_flags-IsSafe cfg me (insert_pending msg.addr (pos n))
                            (λ h. refl))
                          (IsSafe-pure _))
                      λ _.
                        IsSafe-then
                          (update_directory_entry-IsSafe cfg me msg.addr msg.source_id modified
                            v.sender)
                          (IsSafe-then (reply-IsSafe _) (IsSafe-pure _))

  pub handle_invalidate_other_ack-IsSafe : IsSafe cfg Any (handle_invalidate_other_ack cfg me msg)
  unfolding handle_invalidate_other_ack
  handle_invalidate_other_ack-IsSafe =
      IsSafe-require (msg.source_id == home_node_id cfg msg.addr) λ _.
        IsSafe-bind (get_context-IsSafe cfg me) λ c _.
          IsSafe-require (c.current_mem_op.addr == msg.addr) λ _.
            IsSafe-then
              (handler_flags-IsSafe cfg me (put_line_status msg.addr ProtocolStatus.m) (λ h. refl))
              (IsSafe-then (to_cache-IsSafe _) (IsSafe-pure _))

  pub handle_rollback-IsSafe : IsSafe cfg Any (handle_rollback cfg me)
  unfolding handle_rollback
  handle_rollback-IsSafe =
      IsSafe-then (re_add_curr_mem_op-IsSafe cfg me)
        (IsSafe-then (set_successful-IsSafe cfg me true) (IsSafe-pure _))

  -- A message to the sender of the request that it serves.
  pub answer-IsSafe :
      (m : Message) (type : MessageType)
      → IsMessage cfg.num_contexts m
      → IsSafe cfg {A = Unit} Any (send_msg_to_node cfg me m.source_id msg.addr type)
  answer-IsSafe m type k =
      send_msg_to_node-IsSafe cfg me here m.source_id msg.addr type k.sender v.address

  module _ (check : ℕ → Exec World (Unit {0}))
      (check-IsSafe : (addr : ℕ) → IsSafe cfg {A = Unit} Any (check addr)) where
    grant_blocked-IsSafe : IsSafe cfg {A = Unit} Any (grant_blocked cfg me check msg.addr)
    unfolding grant_blocked
    grant_blocked-IsSafe =
        IsSafe-then (handler_flags-IsSafe cfg me (erase_pending msg.addr) (λ h. refl)) (
          IsSafe-bind (pop_blocked-IsSafe cfg me msg.addr) λ m k.
            IsSafe-then
              (update_directory_entry-IsSafe cfg me msg.addr m.source_id modified k.sender)
              (IsSafe-require (is_write_miss m.msg_type || is_invalidate_other m.msg_type) λ _.
                IsSafe-then
                  (IsSafe-if (is_write_miss m.msg_type) (λ _. answer-IsSafe m _ k)
                    (λ _. answer-IsSafe m _ k))
                  (check-IsSafe msg.addr)))

    pub handle_invalidate_ack-IsSafe : IsSafe cfg Any (handle_invalidate_ack cfg me check msg)
    unfolding handle_invalidate_ack
    handle_invalidate_ack-IsSafe = IsSafe-require (home_node_id cfg msg.addr == me) λ _.
        IsSafe-bind (get_context-IsSafe cfg me) λ c _.
          IsSafe-then
            (handler_flags-IsSafe cfg me
              (put_pending msg.addr
                (pred_ℤ (get_or (c.handler.pending_inv_ack_count msg.addr) (pos 0))))
              (λ h. refl))
            (IsSafe-then
              (IsSafe-if
                (is_zero_ℤ (pred_ℤ (get_or (c.handler.pending_inv_ack_count msg.addr) (pos 0))))
                (λ _. grant_blocked-IsSafe) (λ _. IsSafe-skip))
              (IsSafe-pure _))

    pub handle_cache_invalidate_ack-IsSafe :
        IsSafe cfg Any (handle_cache_invalidate_ack cfg me check msg)
    unfolding handle_cache_invalidate_ack
    handle_cache_invalidate_ack-IsSafe = IsSafe-bind (pop_blocked-IsSafe cfg me msg.addr) λ m k.
        IsSafe-require (is_invalidate m.msg_type || is_fetch_invalidate m.msg_type) λ _.
          IsSafe-then
            (IsSafe-if (is_invalidate m.msg_type) (λ _. answer-IsSafe m _ k)
              (λ _. answer-IsSafe m _ k))
            (IsSafe-then (check-IsSafe msg.addr) (IsSafe-pure _))

    pub handle_cache_fetch_ack-IsSafe : IsSafe cfg Any (handle_cache_fetch_ack cfg me check msg)
    unfolding handle_cache_fetch_ack
    handle_cache_fetch_ack-IsSafe = IsSafe-bind (pop_blocked-IsSafe cfg me msg.addr) λ m k.
        IsSafe-require (is_fetch m.msg_type) λ _.
          IsSafe-then (answer-IsSafe m _ k) (IsSafe-then (check-IsSafe msg.addr) (IsSafe-pure _))
