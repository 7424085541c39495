-- ===== src/Handler.antt =====
-- The methods that backend/Simulator/MSIHandler.cpp and MESIHandler.cpp have in common, but for
-- comments: sending messages, the queues of blocked messages, and the loop over incoming messages.
-- `handle` stands for `handleMessage`, which takes `checkBlockedQueueAtAddress` as an argument here.
pub mod Cases
use syncd_sim.Base.{
  ℕ, suc, zero, ℤ, pos, ◌+◌, Bool, true, false, ◌&&◌, ◌||◌, List, [], ◌∷◌, ◌++◌, Option, none, some,
  if◌then◌else◌, Table, assign, insert, erase, get_or, tail, drop, length, get_elem?, map,
  count_down, is_zero_ℤ,
}
use syncd_sim.Base.Effects.{Exec, gets, pure, fail, skip, ◌>>=◌, ◌>>◌, ok, no_message, out_of_fuel}
use syncd_sim.Types.{
  Message, MessageType, new_message, invalidate, fetch, fetch_invalidate, ProtocolStatus,
}
use syncd_sim.Context.{
  Config, Context, World, Handler, get_context, update_context, update_handler, count, deliver,
  add_to_cache_msg_queue, inc_num_sent_msgs, inc_num_sent_msgs_to_cache,
}

-- What `handleMessage` returns: true; false with `msg->serviced` set; false with it not set.
pub data Handled : Type 0 where
  done in_service still_blocked : Handled

-- `blockedMsgMap[addr]`; a missing key reads as an empty queue.
abbrev pub blocked_queue : Context → ℕ → List Message
blocked_queue c addr = get_or (c.handler.blocked_msg_map addr) []

abbrev pub is_some {ℓ} : {A : Type ℓ} → Option A → Bool
is_some none = false
is_some (some a) = true

-- The negation of `blockedMsgMap.find(addr) == blockedMsgMap.end() || blocked`
abbrev pub has_to_wait : Context → ℕ → Bool → Bool
has_to_wait c addr true = false
has_to_wait c addr false = is_some (c.handler.blocked_msg_map addr)

abbrev pub put_blocked_queue : ℕ → List Message → Handler → Handler
put_blocked_queue addr q h = record h { blocked_msg_map = assign h.blocked_msg_map addr q }

abbrev pub put_line_status : ℕ → ProtocolStatus → Handler → Handler
put_line_status addr st h = record h { cache_line_status = assign h.cache_line_status addr st }

-- `cacheLineStatus.insert(pair)`
abbrev pub insert_line_status : ℕ → ProtocolStatus → Handler → Handler
insert_line_status addr st h = record h { cache_line_status = insert h.cache_line_status addr st }

abbrev pub erase_line_status : ℕ → Handler → Handler
erase_line_status addr h = record h { cache_line_status = erase h.cache_line_status addr }

abbrev pub insert_pending : ℕ → ℤ → Handler → Handler
insert_pending addr n h = record h { pending_inv_ack_count = insert h.pending_inv_ack_count addr n }

abbrev pub put_pending : ℕ → ℤ → Handler → Handler
put_pending addr n h = record h { pending_inv_ack_count = assign h.pending_inv_ack_count addr n }

abbrev pub erase_pending : ℕ → Handler → Handler
erase_pending addr h = record h { pending_inv_ack_count = erase h.pending_inv_ack_count addr }

-- The loop that looks for the owner: the first set bit, or the number of bits.
unfoldable pub find_owner : ℕ → List Bool → ℕ
find_owner i [] = i
find_owner i (true ∷ bs) = i
find_owner i (false ∷ bs) = find_owner (suc i) bs

abbrev pub is_priority : MessageType → Bool
is_priority fetch = true
is_priority fetch_invalidate = true
is_priority invalidate = true
is_priority _ = false

-- A message goes to the end of its queue, or to the front.
abbrev pub enqueue_blocked : Message → List Message → List Message
enqueue_blocked msg q = if is_priority msg.msg_type then msg ∷ q else q ++ msg ∷ []

-- `if (msg -> latency > 0) msg -> latency--;`
abbrev pub tick : Message → Message
tick msg = record msg { latency = count_down msg.latency }

module _ (cfg : Config) (me : ℕ) where
  unfoldable pub send_msg_to_node : ℕ → ℕ → MessageType → Exec World (Unit {0})
  send_msg_to_node dst_id addr type = do
    count me inc_num_sent_msgs
    deliver cfg dst_id (new_message me addr type cfg.node_latency)

  unfoldable pub send_msg_to_cache : ℕ → MessageType → Exec World (Unit {0})
  send_msg_to_cache addr type = do
    count me inc_num_sent_msgs_to_cache
    add_to_cache_msg_queue me (new_message me addr type cfg.cache_latency)

  -- The loop that sends INVALIDATE to each sharer that `wanted` lets through; the number sent.
  unfoldable pub invalidate_sharers : ℕ → (ℕ → Bool) → ℕ → ℕ → List Bool → Exec World ℕ
  invalidate_sharers addr wanted sharer_id sharer_count [] = pure sharer_count
  invalidate_sharers addr wanted sharer_id sharer_count (is_sharer ∷ bits) = do
    n ←
        if is_sharer && wanted sharer_id
        then (do send_msg_to_node sharer_id addr invalidate; pure (suc sharer_count))
        else pure sharer_count
    invalidate_sharers addr wanted (suc sharer_id) n bits

module _ (me : ℕ) where
  unfoldable pub add_to_blocked_msg_map : Message → Exec World (Unit {0})
  add_to_blocked_msg_map msg = do
    c ← get_context me
    update_handler me (put_blocked_queue msg.addr (enqueue_blocked msg (blocked_queue c msg.addr)))

  -- `m = blockedMsgMap[addr].front(); blockedMsgMap[addr].erase(blockedMsgMap[addr].begin());`
  unfoldable pub pop_blocked : ℕ → Exec World Message
  pop_blocked addr = do
    c ← get_context me
    elim (blocked_queue c addr) [
      | [] ↦ fail no_message
      | m ∷ rest ↦ do update_handler me (put_blocked_queue addr rest); pure m
    ]

  -- `m->serviced = true` on the front of the queue.
  unfoldable pub mark_serviced : ℕ → Exec World (Unit {0})
  mark_serviced addr = do
    c ← get_context me
    elim (blocked_queue c addr) [
      | [] ↦ skip
      | m ∷ rest ↦ update_handler me (put_blocked_queue addr (record m { serviced = true } ∷ rest))
    ]

  -- `if (blockedMsgMap[addr].empty()) blockedMsgMap.erase(addr);`
  unfoldable pub erase_if_empty : ℕ → Exec World (Unit {0})
  erase_if_empty addr = do
    c ← get_context me
    elim (blocked_queue c addr) [
      | [] ↦ update_handler me (λ h. record h { blocked_msg_map = erase h.blocked_msg_map addr })
      | m ∷ rest ↦ skip
    ]

module _ (me : ℕ) (handle : (ℕ → Exec World (Unit {0})) → Message → Bool → Exec World Handled) where
  -- The loop of `checkBlockedQueueAtAddress`; each round but the last takes a message off.
  unfoldable pub check_blocked_loop : ℕ → ℕ → Exec World (Unit {0})
  check_blocked_loop zero addr = fail out_of_fuel
  check_blocked_loop (suc fuel) addr = do
    c ← get_context me
    elim (blocked_queue c addr) [
      | [] ↦ erase_if_empty me addr
      | m ∷ rest ↦ if m.serviced then erase_if_empty me addr else do
        r ← handle (check_blocked_loop fuel) m true
        elim r [
          | done ↦ do served ← pop_blocked me addr; check_blocked_loop fuel addr
          | in_service ↦ do mark_serviced me addr; erase_if_empty me addr
          | still_blocked ↦ erase_if_empty me addr
        ]
    ]

  unfoldable pub check_blocked_queue_at_address : ℕ → Exec World (Unit {0})
  check_blocked_queue_at_address addr = do
    c ← get_context me
    check_blocked_loop (suc (length (blocked_queue c addr))) addr

  unfoldable pub handle_message : Message → Bool → Exec World Handled
  handle_message = handle check_blocked_queue_at_address

  -- One message whose latency has run out.
  unfoldable pub receive : Message → Exec World (Unit {0})
  receive msg = do
    r ← handle_message msg false
    elim r [
      | done ↦ skip
      | in_service ↦ add_to_blocked_msg_map me (record msg { serviced = true })
      | still_blocked ↦ add_to_blocked_msg_map me msg
    ]

  -- The second loop of `checkIncomingMsgQueue`, from index `i` on; the index where it ends.
  unfoldable pub check_incoming_loop : ℕ → ℕ → Exec World ℕ
  check_incoming_loop zero i = fail out_of_fuel
  check_incoming_loop (suc fuel) i = do
    c ← get_context me
    elim (get_elem? c.incoming_msg_queue i) [
      | none ↦ pure i
      | some msg ↦
          if is_zero_ℤ msg.latency
          then (do receive msg; check_incoming_loop fuel (suc i))
          else pure i
    ]

  unfoldable pub check_incoming_msg_queue : ℕ → Exec World (Unit {0})
  check_incoming_msg_queue fuel = do
    update_context me λ c. record c { incoming_msg_queue = map tick c.incoming_msg_queue }
    i ← check_incoming_loop fuel 0
    update_context me λ c. record c { incoming_msg_queue = drop i c.incoming_msg_queue }
