-- ===== src/Safety/Mesi.antt =====
-- The invariant and `MESIHandler::handleMessage`.
use syncd_sim.Base.{ℕ, ◌<◌, Bool, not, ◌||◌}
use syncd_sim.Base.Effects.{Exec, unknown_type}
use syncd_sim.Types.{
  Message, MessageType, cache_read, cache_read_reply, cache_update, cache_update_ack,
  cache_invalidate, cache_invalidate_ack, cache_fetch, cache_fetch_ack, cache_eviction_alert,
  write_miss, read_miss, invalidate, invalidate_ack, invalidate_other, invalidate_other_ack, fetch,
  fetch_invalidate, data_value_reply, data_value_reply_e, data_write_back, rollback, modified,
  uncached,
}
use syncd_sim.Context.{Config, World}
use syncd_sim.Context.Home.{IsConfig}
use syncd_sim.Handler.{is_some}
use syncd_sim.Handler.Cases.{is_write_miss, is_read_miss}
use syncd_sim.Mesi.{switch, handle}
use syncd_sim.Mesi.Cases.{handle_data_write_back}
use syncd_sim.Safety.{IsMessage, IsSafe}
use syncd_sim.Safety.Rules.{
  Any, IsSafe-bind, IsSafe-then, IsSafe-if, IsSafe-require, IsSafe-pure, IsSafe-fail,
}
use syncd_sim.Safety.Primitives.{update_directory_entry-IsSafe, pop_blocked-IsSafe}
use syncd_sim.Safety.Members.{get_context-IsSafe}
use syncd_sim.Safety.Shared.{
  answer-IsSafe, handle_write_miss-IsSafe, handle_invalidate_other-IsSafe,
  handle_invalidate_other_ack-IsSafe, handle_rollback-IsSafe, handle_invalidate_ack-IsSafe,
  handle_cache_invalidate_ack-IsSafe, handle_cache_fetch_ack-IsSafe,
}
use syncd_sim.Safety.MesiCases.{
  handle_read_miss-IsSafe, handle_invalidate-IsSafe, handle_fetch-IsSafe,
  handle_fetch_invalidate-IsSafe, handle_data_value_reply-IsSafe, handle_data_value_reply_e-IsSafe,
  handle_cache_reply-IsSafe, handle_cache_eviction_alert-IsSafe, answer_read_miss-IsSafe,
}

module _ (cfg : Config) (me : ℕ) (ok_cfg : IsConfig cfg) (here : me < cfg.num_contexts) where
  module _ (check : ℕ → Exec World (Unit {0}))
      (check-IsSafe : (addr : ℕ) → IsSafe cfg {A = Unit} Any (check addr)) (msg : Message)
      (v : IsMessage cfg.num_contexts msg) where
    handle_data_write_back-IsSafe : IsSafe cfg Any (handle_data_write_back cfg me check msg)
    unfolding handle_data_write_back
    handle_data_write_back-IsSafe = IsSafe-bind (get_context-IsSafe cfg me) λ c _.
        IsSafe-if (is_some (c.handler.blocked_msg_map msg.addr))
          (λ _. IsSafe-bind (pop_blocked-IsSafe cfg me msg.addr) λ m k.
            IsSafe-require (is_write_miss m.msg_type || is_read_miss m.msg_type) λ _.
              IsSafe-then
                (IsSafe-if (is_write_miss m.msg_type)
                  (λ _.
                    IsSafe-then (answer-IsSafe cfg me here msg v m _ k)
                      (update_directory_entry-IsSafe cfg me msg.addr m.source_id modified k.sender))
                  (λ _.
                    answer_read_miss-IsSafe cfg me ok_cfg here m.source_id msg.addr k.sender
                      v.address))
                (IsSafe-then (check-IsSafe msg.addr) (IsSafe-pure _)))
          λ _.
            IsSafe-then
              (update_directory_entry-IsSafe cfg me msg.addr msg.source_id uncached v.sender)
              (IsSafe-pure _)

    switch-IsSafe :
        (type : MessageType) (again : Bool) → IsSafe cfg Any (switch cfg me check type msg again)
    unfolding switch
    switch-IsSafe read_miss again = handle_read_miss-IsSafe cfg me ok_cfg here msg v again
    switch-IsSafe write_miss again = handle_write_miss-IsSafe cfg me here msg v again
    switch-IsSafe invalidate again = handle_invalidate-IsSafe cfg me ok_cfg here msg v
    switch-IsSafe invalidate_other again = handle_invalidate_other-IsSafe cfg me here msg v again
    switch-IsSafe invalidate_ack again =
        handle_invalidate_ack-IsSafe cfg me here msg v check check-IsSafe
    switch-IsSafe invalidate_other_ack again = handle_invalidate_other_ack-IsSafe cfg me here msg v
    switch-IsSafe fetch again = handle_fetch-IsSafe cfg me ok_cfg here msg v
    switch-IsSafe fetch_invalidate again = handle_fetch_invalidate-IsSafe cfg me ok_cfg here msg v
    switch-IsSafe data_value_reply again = handle_data_value_reply-IsSafe cfg me ok_cfg here msg v
    switch-IsSafe data_write_back again = handle_data_write_back-IsSafe
    switch-IsSafe cache_read_reply again = handle_cache_reply-IsSafe cfg me ok_cfg here msg v
    switch-IsSafe cache_update_ack again = handle_cache_reply-IsSafe cfg me ok_cfg here msg v
    switch-IsSafe cache_invalidate_ack again =
        handle_cache_invalidate_ack-IsSafe cfg me here msg v check check-IsSafe
    switch-IsSafe cache_fetch_ack again =
        handle_cache_fetch_ack-IsSafe cfg me here msg v check check-IsSafe
    switch-IsSafe cache_eviction_alert again =
        handle_cache_eviction_alert-IsSafe cfg me ok_cfg here msg v
    switch-IsSafe rollback again = handle_rollback-IsSafe cfg me here msg v
    switch-IsSafe cache_read again = IsSafe-fail unknown_type tt
    switch-IsSafe cache_update again = IsSafe-fail unknown_type tt
    switch-IsSafe cache_invalidate again = IsSafe-fail unknown_type tt
    switch-IsSafe cache_fetch again = IsSafe-fail unknown_type tt
    switch-IsSafe data_value_reply_e again =
        handle_data_value_reply_e-IsSafe cfg me ok_cfg here msg v

    pub handle-IsSafe : (again : Bool) → IsSafe cfg Any (handle cfg me check msg again)
    unfolding handle
    handle-IsSafe again = IsSafe-require (not msg.serviced) λ _. switch-IsSafe msg.msg_type again
