-- ===== src/Fuel/Blocked.antt =====
-- The rounds of `checkBlockedQueueAtAddress` of MSIHandler.cpp and MESIHandler.cpp.
use syncd_sim.Base.{
  ◌≢◌, ℕ, zero, suc, ◌<◌, ◌≡◌, refl, ap, sym, subst, ◌∙◌, Bool, true, List, [], ◌∷◌, All, length,
  arith, get_or, assign_self, ==_refl, Table,
}
use syncd_sim.Base.Effects.{err, Exec, out_of_fuel}
use syncd_sim.Types.{Message, msi, mesi, ProtocolType}
use syncd_sim.Context.{
  Config, World, Handler, put_context, get_context, update_context, update_handler,
}
use syncd_sim.Handler.{
  Handled, blocked_queue, pop_blocked, mark_serviced, erase_if_empty, check_blocked_loop,
  check_blocked_queue_at_address,
}
use syncd_sim.Msi
use syncd_sim.Mesi
use syncd_sim.Fuel.Triples.{
  Gives, Outcome, Gives-bind, Gives-if, Gives-list, Gives-from, Gives-given, Gives-handled,
}
use syncd_sim.Fuel.Context.{Has, IsApart}
use syncd_sim.Fuel.Cases.{IsRequest}
use syncd_sim.Fuel.Requests.{msi_handle-Left, mesi_handle-Left}

module _ (me addr : ℕ) where
  -- The queue of the address satisfies `P`.
  abbrev Queue : (List Message → Type 0) → World → Type 0
  Queue P = Has me (λ c. blocked_queue c addr) P

  queue_apart : (P : List Message → Type 0) → IsApart me (λ c. blocked_queue c addr) P
  queue_apart P = record {
    count = λ f c. refl;
    incoming = λ q c. refl;
    to_cache = λ q c. refl;
    handler = λ f same c. ap (λ (t : Table (List Message)). get_or (t addr) []) (same c.handler);
    directory = λ d c. refl;
  }

  read-Gives : {P : World → Type 0} → Gives P (get_context me) (λ c w. P w × (c ≡ w me))
  read-Gives = record { apply = λ w p. (p, refl) }

  any-Gives :
      {P : World → Type 0} (f : Handler → Handler) → Gives P (update_handler me f) (λ _ _. Unit)
  unfolding update_handler update_context
  any-Gives f = record { apply = λ s p. tt }

  erase_if_empty-Gives : {P : World → Type 0} → Gives P (erase_if_empty me addr) (λ _ _. Unit)
  unfolding erase_if_empty
  erase_if_empty-Gives = Gives-bind read-Gives λ c.
      Gives-list (blocked_queue c addr) (λ _. any-Gives _)
        (λ m rest e. record { apply = λ s p. tt })

  mark_serviced-Gives : {P : World → Type 0} → Gives P (mark_serviced me addr) (λ _ _. Unit)
  unfolding mark_serviced
  mark_serviced-Gives = Gives-bind read-Gives λ c.
      Gives-list (blocked_queue c addr) (λ _. record { apply = λ s p. tt })
        (λ m rest e. any-Gives _)

  -- The message at the front goes.
  pop_blocked-Gives :
      (m : Message) (rest : List Message)
      → Gives (Queue (λ q. q ≡ m ∷ rest)) (pop_blocked me addr) (λ _. Queue (λ q. q ≡ rest))
  unfolding pop_blocked update_handler update_context
  pop_blocked-Gives m rest = Gives-bind read-Gives λ c.
      Gives-list (blocked_queue c addr) (λ e. record { apply = λ w p. (λ f. cc) })
        λ n more e.
          Gives-bind {Q = λ _. Queue (λ q. q ≡ rest)}
            (record {
              apply = λ w p. record {
                has =
                    rw (==_refl me, put_context)
                      (ap (λ o. get_or o []) (assign_self (w me).handler.blocked_msg_map addr more)
                        ∙ tail_of (sym e ∙ ap (λ x. blocked_queue x addr) p.1 ∙ p.0.has));
              };
            })
            (λ _. record { apply = λ w p. p })
    where
      tail_of : {n : Message} {more : List Message} → n ∷ more ≡ m ∷ rest → more ≡ rest
      tail_of h = ap (λ l. elim l [ [] ↦ rest | x ∷ xs ↦ xs ]) h

module _ (me addr : ℕ) (handle : (ℕ → Exec World (Unit {0})) → Message → Bool → Exec World Handled)
    (handle-Left : (check : ℕ → Exec World (Unit {0})) (msg : Message) (P : List Message → Type 0)
      → IsRequest msg.msg_type
      → Gives (Queue me addr P) (handle check msg true) (λ _. Queue me addr P)) where
  check_blocked_loop-Gives :
      (fuel : ℕ) (q : List Message)
      → length q < fuel
      → All (λ m. IsRequest m.msg_type) q
      → Gives (Queue me addr (λ r. r ≡ q)) (check_blocked_loop me handle fuel addr) (λ _ _. Unit)
  unfolding check_blocked_loop
  check_blocked_loop-Gives zero q h a = absurd (omega arith)
  check_blocked_loop-Gives (suc fuel) q h a = Gives-bind (read-Gives me addr) λ c.
      Gives-list (blocked_queue c addr) (λ _. erase_if_empty-Gives me addr)
        λ m rest e.
          Gives-if m.serviced (λ _. erase_if_empty-Gives me addr)
            λ _.
              Gives-given (q ≡ m ∷ rest)
                (λ w p. sym p.0.has ∙ ap (λ x. blocked_queue x addr) (sym p.1) ∙ e)
                λ same.
                  let b = subst (All (λ x. IsRequest x.msg_type)) same a in
                  let short = subst (λ r. length r < suc fuel) same h in
                  Gives-from (λ w p. record { has = p.0.has ∙ same })
                    (Gives-bind
                      (handle-Left (check_blocked_loop me handle fuel) m (λ r. r ≡ m ∷ rest) b.0)
                      λ r.
                        Gives-handled r
                          (Gives-bind (pop_blocked-Gives me addr m rest)
                            λ served. check_blocked_loop-Gives fuel rest (omega arith) b.1)
                          (Gives-bind (mark_serviced-Gives me addr)
                            λ _. erase_if_empty-Gives me addr)
                          (erase_if_empty-Gives me addr))

  check_blocked-returns :
      (w : World)
      → All (λ m. IsRequest m.msg_type) (blocked_queue (w me) addr)
      → check_blocked_queue_at_address me handle addr w ≢ err out_of_fuel
  unfolding check_blocked_queue_at_address
  check_blocked-returns w a h =
      subst (Outcome (λ _ _. Unit)) h
        ((Gives-bind {Q = λ c v. (c ≡ w me) × Queue me addr (λ r. r ≡ blocked_queue (w me) addr) v}
            {P = λ v. v ≡ w}
            (record {
              apply =
                  λ v e. (ap (λ x. x me) e, record { has = ap (λ x. blocked_queue (x me) addr) e });
            })
            (λ c.
              Gives-given (c ≡ w me) (λ v p. p.0)
                λ same.
                  Gives-from (λ v p. p.1)
                    (check_blocked_loop-Gives (suc (length (blocked_queue c addr)))
                      (blocked_queue (w me) addr) (rw same (omega arith)) a))).apply
          w refl)
        refl

abbrev handle_of :
    ProtocolType → Config → ℕ → (ℕ → Exec World (Unit {0})) → Message → Bool → Exec World Handled
handle_of msi = Msi.handle
handle_of mesi = Mesi.handle

-- If only requests (READ_MISS, WRITE_MISS, INVALIDATE_OTHER, INVALIDATE, FETCH, FETCH_INVALIDATE)
-- wait for an address, `checkBlockedQueueAtAddress` ends for both handlers: it does not run out of
-- the rounds that the model gives it, and returns or stops with a fault of the program.
pub check_blocked_queue_at_address_returns :
    (protocol : ProtocolType) (cfg : Config) (me addr : ℕ) (w : World)
    → All (λ m. IsRequest m.msg_type) (blocked_queue (w me) addr)
    → check_blocked_queue_at_address me (handle_of protocol cfg me) addr w ≢ err out_of_fuel
check_blocked_queue_at_address_returns msi cfg me addr w a =
    check_blocked-returns me addr (Msi.handle cfg me)
      (λ check msg P r. msi_handle-Left cfg me _ P (queue_apart me addr P) msg check true r) w a
check_blocked_queue_at_address_returns mesi cfg me addr w a =
    check_blocked-returns me addr (Mesi.handle cfg me)
      (λ check msg P r. mesi_handle-Left cfg me _ P (queue_apart me addr P) msg check true r) w a
