-- ===== src/Safety/Loops.antt =====
-- The invariant and the queues of blocked messages, `checkBlockedQueueAtAddress` and
-- `checkIncomingMsgQueue`.
use syncd_sim.Base.{
  ℕ, zero, suc, ◌≡◌, subst, Bool, true, false, List, [], ◌∷◌, some, erase, All, All-append,
  All-drop, All-get_elem?, get_elem?, drop, map, arith, ◌==◌, Bool-cases, inl, inr, is_zero_ℤ,
}
use syncd_sim.Base.Effects.{Exec, out_of_fuel}
use syncd_sim.Types.{Message}
use syncd_sim.Context.{Config, World, Handler, update_context}
use syncd_sim.Handler.{
  Handled, blocked_queue, is_priority, enqueue_blocked, tick, add_to_blocked_msg_map, mark_serviced,
  erase_if_empty, check_blocked_loop, check_blocked_queue_at_address, handle_message, receive,
  check_incoming_loop, check_incoming_msg_queue,
}
use syncd_sim.Safety.{IsMessage, IsSafe}
use syncd_sim.Safety.Rules.{
  Any, IsSafe-bind, IsSafe-then, IsSafe-if, IsSafe-pure, IsSafe-skip, IsSafe-fail, IsSafe-list,
  IsSafe-option, IsSafe-handled,
}
use syncd_sim.Safety.Primitives.{pop_blocked-IsSafe, blocked_queue-All, put_blocked_queue-All}
use syncd_sim.Safety.Members.{get_context-IsSafe, update_context-IsSafe, update_handler-IsSafe}

enqueue_blocked-All :
    {n : ℕ} (msg : Message) (q : List Message)
    → IsMessage n msg
    → All (IsMessage n) q
    → All (IsMessage n) (enqueue_blocked msg q)
enqueue_blocked-All {n} msg q m h = elim (Bool-cases (is_priority msg.msg_type)) [
  | inl e ↦ rw e (m, h)
  | inr e ↦ rw e (All-append (IsMessage n) q (msg ∷ []) h (m, tt))
]

erased-All :
    {n : ℕ} (addr : ℕ) (h : Handler)
    → ((a : ℕ) (r : List Message) → h.blocked_msg_map a ≡ some r → All (IsMessage n) r)
    → (a : ℕ) (r : List Message) → erase h.blocked_msg_map addr a ≡ some r
    → All (IsMessage n) r
erased-All addr h old a r e = elim (Bool-cases (addr == a)) [
  | inl same ↦ ground arith
  | inr other ↦ old a r (rw other at e)
]

pub ticked-All : (n : ℕ) (q : List Message) → All (IsMessage n) q → All (IsMessage n) (map tick q)
ticked-All n [] h = tt
ticked-All n (m ∷ q) h = (record { sender = h.0.sender; address = h.0.address }, ticked-All n q h.1)

module _ (cfg : Config) (me : ℕ) where
  add_to_blocked_msg_map-IsSafe :
      (msg : Message)
      → IsMessage cfg.num_contexts msg
      → IsSafe cfg {A = Unit} Any (add_to_blocked_msg_map me msg)
  unfolding add_to_blocked_msg_map
  add_to_blocked_msg_map-IsSafe msg m = IsSafe-bind (get_context-IsSafe cfg me) λ c v.
      update_handler-IsSafe cfg me _ (
        put_blocked_queue-All msg.addr _
          (enqueue_blocked-All msg (blocked_queue c msg.addr) m (blocked_queue-All c msg.addr v)))

  mark_serviced-IsSafe : (addr : ℕ) → IsSafe cfg {A = Unit} Any (mark_serviced me addr)
  unfolding mark_serviced
  mark_serviced-IsSafe addr = IsSafe-bind (get_context-IsSafe cfg me) λ c v.
      IsSafe-list (blocked_queue c addr) (λ _. IsSafe-skip)
        λ m rest e.
          let a = subst (All (IsMessage cfg.num_contexts)) e (blocked_queue-All c addr v) in
          update_handler-IsSafe cfg me _ (
            put_blocked_queue-All addr _
              (record { sender = a.0.sender; address = a.0.address }, a.1))

  erase_if_empty-IsSafe : (addr : ℕ) → IsSafe cfg {A = Unit} Any (erase_if_empty me addr)
  unfolding erase_if_empty
  erase_if_empty-IsSafe addr = IsSafe-bind (get_context-IsSafe cfg me) λ c v.
      IsSafe-list (blocked_queue c addr) (λ _. update_handler-IsSafe cfg me _ (erased-All addr))
        (λ m rest e. IsSafe-skip)

module _ (cfg : Config) (me : ℕ)
    (handle : (ℕ → Exec World (Unit {0})) → Message → Bool → Exec World Handled)
    (handle-IsSafe : (check : ℕ → Exec World (Unit {0}))
      → ((addr : ℕ) → IsSafe cfg {A = Unit} Any (check addr))
      → (msg : Message) → IsMessage cfg.num_contexts msg
      → (again : Bool) → IsSafe cfg Any (handle check msg again)) where
  check_blocked_loop-IsSafe :
      (fuel addr : ℕ) → IsSafe cfg {A = Unit} Any (check_blocked_loop me handle fuel addr)
  unfolding check_blocked_loop
  check_blocked_loop-IsSafe zero addr = IsSafe-fail out_of_fuel tt
  check_blocked_loop-IsSafe (suc fuel) addr = IsSafe-bind (get_context-IsSafe cfg me) λ c v.
      IsSafe-list (blocked_queue c addr) (λ _. erase_if_empty-IsSafe cfg me addr)
        λ m rest e.
          IsSafe-if m.serviced (λ _. erase_if_empty-IsSafe cfg me addr)
            λ _.
              IsSafe-bind
                (handle-IsSafe _ (check_blocked_loop-IsSafe fuel) m
                  (subst (All (IsMessage cfg.num_contexts)) e (blocked_queue-All c addr v)).0 true)
                λ r _.
                  IsSafe-handled r
                    (IsSafe-bind (pop_blocked-IsSafe cfg me addr)
                      λ served _. check_blocked_loop-IsSafe fuel addr)
                    (IsSafe-then (mark_serviced-IsSafe cfg me addr)
                      (erase_if_empty-IsSafe cfg me addr))
                    (erase_if_empty-IsSafe cfg me addr)

  check_blocked_queue_at_address-IsSafe :
      (addr : ℕ) → IsSafe cfg {A = Unit} Any (check_blocked_queue_at_address me handle addr)
  unfolding check_blocked_queue_at_address
  check_blocked_queue_at_address-IsSafe addr =
      IsSafe-bind (get_context-IsSafe cfg me) λ c v. check_blocked_loop-IsSafe _ addr

  receive-IsSafe :
      (msg : Message)
      → IsMessage cfg.num_contexts msg
      → IsSafe cfg {A = Unit} Any (receive me handle msg)
  unfolding receive handle_message
  receive-IsSafe msg m =
      IsSafe-bind (handle-IsSafe _ check_blocked_queue_at_address-IsSafe msg m false) λ r _.
        IsSafe-handled r IsSafe-skip
          (add_to_blocked_msg_map-IsSafe cfg me _
            (record { sender = m.sender; address = m.address }))
          (add_to_blocked_msg_map-IsSafe cfg me msg m)

  check_incoming_loop-IsSafe :
      (fuel i : ℕ) → IsSafe cfg {A = ℕ} Any (check_incoming_loop me handle fuel i)
  unfolding check_incoming_loop
  check_incoming_loop-IsSafe zero i = IsSafe-fail out_of_fuel tt
  check_incoming_loop-IsSafe (suc fuel) i = IsSafe-bind (get_context-IsSafe cfg me) λ c v.
      IsSafe-option (get_elem? c.incoming_msg_queue i) (λ _. IsSafe-pure _)
        λ msg e.
          IsSafe-if (is_zero_ℤ msg.latency)
            (λ _.
              IsSafe-then
                (receive-IsSafe msg (
                  All-get_elem? (IsMessage cfg.num_contexts) c.incoming_msg_queue i msg v.incoming
                    e))
                (check_incoming_loop-IsSafe fuel (suc i)))
            (λ _. IsSafe-pure _)

  -- A change of the queue of incoming messages that leaves it well formed.
  incoming-IsSafe :
      (f : List Message → List Message)
      → ((q : List Message)
          → All (IsMessage cfg.num_contexts) q
          → All (IsMessage cfg.num_contexts) (f q))
      → IsSafe cfg {A = Unit} Any
          (update_context me (λ c. record c { incoming_msg_queue = f c.incoming_msg_queue }))
  incoming-IsSafe f h = update_context-IsSafe cfg me _ λ c v. record {
    directory = v.directory;
    incoming = h c.incoming_msg_queue v.incoming;
    to_cache = v.to_cache;
    blocked = v.blocked;
    operation = v.operation;
    geometry = v.geometry;
    tags = v.tags;
  }

  pub check_incoming_msg_queue-IsSafe :
      (fuel : ℕ) → IsSafe cfg {A = Unit} Any (check_incoming_msg_queue me handle fuel)
  unfolding check_incoming_msg_queue
  check_incoming_msg_queue-IsSafe fuel =
      IsSafe-then (incoming-IsSafe (map tick) (ticked-All cfg.num_contexts)) (
        IsSafe-bind (check_incoming_loop-IsSafe fuel 0)
          λ i _. incoming-IsSafe (drop i) (All-drop (IsMessage cfg.num_contexts) i))
