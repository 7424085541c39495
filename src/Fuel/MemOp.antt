-- ===== src/Fuel/MemOp.antt =====
-- `handleMemOpRequest`, and what the loop of the processor goes by.
use syncd_sim.Base.{ℕ, refl, not}
use syncd_sim.Types.{ProtocolType, msi, mesi, is_mem_write, ProtocolStatus}
use syncd_sim.Context.{Config, Context}
use syncd_sim.Handler.{put_line_status}
use syncd_sim.Msi
use syncd_sim.Mesi
use syncd_sim.Msi.{is_s}
use syncd_sim.Mesi.{is_e}
use syncd_sim.Msi.Cases.{is_m, is_cached, line_status}
use syncd_sim.Node.{handle_mem_op_request}
use syncd_sim.Fuel.Triples.{Gives, Gives-bind, Gives-then, Gives-if, Gives-gets, Gives-require}
use syncd_sim.Fuel.Context.{
  Has, IsApart, count-Has, update_handler-Has, add_to_cache_msg_queue-Has, send_msg_to_node-Has,
}

module _ (cfg : Config) (me : ℕ) {X : Type 0} (F : Context → X) (P : X → Type 0)
    (apart : IsApart me F P) where
  msi-Has : Gives (Has me F P) (Msi.handle_mem_op_request cfg me) (λ _. Has me F P)
  unfolding Msi.handle_mem_op_request
  msi-Has = Gives-bind (Gives-gets _) λ c.
      Gives-if (is_mem_write c.current_mem_op.action_type)
        (λ _.
          Gives-if (not (is_cached c c.current_mem_op.addr))
            (λ _.
              Gives-then (count-Has me F P apart me _)
                (send_msg_to_node-Has me F P apart cfg me _ _ _))
            λ _.
              Gives-if (is_s (line_status c c.current_mem_op.addr))
                (λ _. Gives-then (count-Has me F P apart me _) (
                  Gives-then (count-Has me F P apart me _)
                    (send_msg_to_node-Has me F P apart cfg me _ _ _)))
                λ _. Gives-then (count-Has me F P apart me _) (
                  Gives-then (count-Has me F P apart me _)
                    (add_to_cache_msg_queue-Has me F P apart me _)))
        λ _.
          Gives-if (not (is_cached c c.current_mem_op.addr))
            (λ _.
              Gives-then (count-Has me F P apart me _)
                (send_msg_to_node-Has me F P apart cfg me _ _ _))
            λ _.
              Gives-then (count-Has me F P apart me _)
                (add_to_cache_msg_queue-Has me F P apart me _)

  mesi-Has : Gives (Has me F P) (Mesi.handle_mem_op_request cfg me) (λ _. Has me F P)
  unfolding Mesi.handle_mem_op_request
  mesi-Has = Gives-bind (Gives-gets _) λ c.
      Gives-if (is_mem_write c.current_mem_op.action_type)
        (λ _.
          Gives-if (not (is_cached c c.current_mem_op.addr))
            (λ _.
              Gives-then (count-Has me F P apart me _)
                (send_msg_to_node-Has me F P apart cfg me _ _ _))
            λ _.
              Gives-if (is_s (line_status c c.current_mem_op.addr))
                (λ _. Gives-then (count-Has me F P apart me _) (
                  Gives-then (count-Has me F P apart me _)
                    (send_msg_to_node-Has me F P apart cfg me _ _ _)))
                λ _.
                  Gives-if (is_m (line_status c c.current_mem_op.addr))
                    (λ _. Gives-then (count-Has me F P apart me _) (
                      Gives-then (count-Has me F P apart me _)
                        (add_to_cache_msg_queue-Has me F P apart me _)))
                    λ _. Gives-then (count-Has me F P apart me _) (
                      Gives-then (Gives-require (is_e (line_status c c.current_mem_op.addr))) (
                        Gives-then (count-Has me F P apart me _) (
                          Gives-then (add_to_cache_msg_queue-Has me F P apart me _) (
                            update_handler-Has me F P apart me
                              (put_line_status c.current_mem_op.addr ProtocolStatus.m)
                              (λ h. refl))))))
        λ _.
          Gives-if (not (is_cached c c.current_mem_op.addr))
            (λ _.
              Gives-then (count-Has me F P apart me _)
                (send_msg_to_node-Has me F P apart cfg me _ _ _))
            λ _.
              Gives-then (count-Has me F P apart me _)
                (add_to_cache_msg_queue-Has me F P apart me _)

  pub handle_mem_op_request-Has :
      Gives (Has me F P) (handle_mem_op_request cfg me) (λ _. Has me F P)
  unfolding handle_mem_op_request
  handle_mem_op_request-Has = by_protocol cfg.protocol
    where
      by_protocol :
          (p : ProtocolType)
          → Gives
              (Has me F P)
              (elim p [
                | msi ↦ Msi.handle_mem_op_request cfg me
                | mesi ↦ Mesi.handle_mem_op_request cfg me
              ])
              (λ _. Has me F P)
      by_protocol msi = msi-Has
      by_protocol mesi = mesi-Has
