-- ===== src/Protocol/Send.antt =====
-- Messages sent to contexts, by `sendMsgToNode` and by the loops over sharers.
use syncd_sim.Base.{
  ℕ, suc, ◌+◌, ◌<◌, ◌≤◌, ◌≡◌, refl, ap, sym, ◌∙◌, subst, Bool, true, false, List, [], ◌∷◌, ◌++◌,
  arith, append_nil, append_assoc, length, ◌==◌, ==_iff, if◌then◌else◌, Bool-cases, inl, inr, ltb,
  lt→ltb,
}
use syncd_sim.Base.Effects.{Exec, ok}
use syncd_sim.Types.{Message, MessageType, new_message, invalidate}
use syncd_sim.Directory.Masks.{holders}
use syncd_sim.Context.{
  Config, Context, World, Stats, put_context, update_context, count, deliver,
  add_to_incoming_msg_queue,
}
use syncd_sim.Handler.{send_msg_to_node, invalidate_sharers}
use syncd_sim.Base.Effects.Steps.{Runs, Runs-bind, Runs-pure, Runs-if_true, Runs-if_false}

-- The messages for context `j` among those sent to `targets`.
abbrev pub sent : ℕ → Message → List ℕ → List Message
sent j msg [] = []
sent j msg (t ∷ ts) = (if t == j then msg ∷ [] else []) ++ sent j msg ts

-- The contexts that a test lets through.
abbrev pub wanted_of : (ℕ → Bool) → List ℕ → List ℕ
wanted_of wanted [] = []
wanted_of wanted (x ∷ xs) = (if wanted x then x ∷ [] else []) ++ wanted_of wanted xs

-- From `w` to `w'` the message is sent to each of the targets, in order.
pub record Sent (msg : Message) (targets : List ℕ) (w w' : World) : Type 0 where
  pub incoming :
      (j : ℕ) → (w' j).incoming_msg_queue ≡ (w j).incoming_msg_queue ++ sent j msg targets
  pub directory : (j : ℕ) → (w' j).directory ≡ (w j).directory
  pub handler : (j : ℕ) → (w' j).handler ≡ (w j).handler

-- A member of a context that a change of one context leaves.
pub put_context-same :
    {X : Type 0} (f : Context → X) (w : World) (id j : ℕ) (c : Context)
    → f c ≡ f (w id)
    → f (put_context w id c j) ≡ f (w j)
put_context-same f w id j c h = elim (Bool-cases (id == j)) [
  | inl e ↦ rw e (h ∙ ap (λ k. f (w k)) ((==_iff id j).0 e))
  | inr e ↦ rw e refl
]

sent-append :
    (j : ℕ) (msg : Message) (us ts : List ℕ)
    → sent j msg (us ++ ts) ≡ sent j msg us ++ sent j msg ts
sent-append j msg [] ts = refl
sent-append j msg (u ∷ us) ts =
    ap (λ q. (if u == j then msg ∷ [] else []) ++ q) (sent-append j msg us ts)
    ∙ sym (append_assoc (if u == j then msg ∷ [] else []) (sent j msg us) (sent j msg ts))

pub Sent-append :
    {msg : Message} (us ts : List ℕ) {w w' w'' : World}
    → Sent msg us w w'
    → Sent msg ts w' w''
    → Sent msg (us ++ ts) w w''
Sent-append {msg} us ts {w} h k = record {
  incoming = λ j.
      k.incoming j
      ∙ ap (λ q. q ++ sent j msg ts) (h.incoming j)
      ∙ append_assoc (w j).incoming_msg_queue (sent j msg us) (sent j msg ts)
      ∙ ap (λ q. (w j).incoming_msg_queue ++ q) (sym (sent-append j msg us ts));
  directory = λ j. k.directory j ∙ h.directory j;
  handler = λ j. k.handler j ∙ h.handler j;
}

Sent-nil : (msg : Message) (w : World) → Sent msg [] w w
Sent-nil msg w = record {
  incoming = λ j. sym (append_nil (w j).incoming_msg_queue);
  directory = λ j. refl;
  handler = λ j. refl;
}

module _ (me id : ℕ) (w : World) where
  -- The counters move.
  count-Sent :
      (msg : Message) (f : Stats → Stats)
      → (w' : World) × Runs (count me f) w tt w' × Sent msg [] w w'
  unfolding count update_context
  count-Sent msg f = (
    _,
    record { result = refl },
    record {
      incoming =
          λ j. put_context-same (λ c. c.incoming_msg_queue) w me j _ refl ∙ sym (append_nil _);
      directory = λ j. put_context-same (λ c. c.directory) w me j _ refl;
      handler = λ j. put_context-same (λ c. c.handler) w me j _ refl;
    },
  )

  add_to_incoming_msg_queue-Sent :
      (msg : Message)
      → (w' : World) × Runs (add_to_incoming_msg_queue id msg) w tt w' × Sent msg (id ∷ []) w w'
  unfolding add_to_incoming_msg_queue update_context
  add_to_incoming_msg_queue-Sent msg = (
    _,
    record { result = refl },
    record {
      incoming = λ j. added j;
      directory = λ j. put_context-same (λ c. c.directory) w id j _ refl;
      handler = λ j. put_context-same (λ c. c.handler) w id j _ refl;
    },
  )
    where
      added :
          (j : ℕ)
          → (put_context w id
              (record (w id) { incoming_msg_queue = (w id).incoming_msg_queue ++ msg ∷ [] })
              j).incoming_msg_queue
            ≡ (w j).incoming_msg_queue ++ sent j msg (id ∷ [])
      added j = elim (Bool-cases (id == j)) [
        | inl e ↦
            rw (e, put_context) (ap (λ k. (w k).incoming_msg_queue ++ msg ∷ []) ((==_iff id j).0 e))
        | inr e ↦ rw (e, put_context) (sym (append_nil _))
      ]

module _ (cfg : Config) (me : ℕ) where
  pub send_msg_to_node-Sent :
      (dst addr : ℕ) (type : MessageType) (w : World)
      → dst < cfg.num_contexts
      → (w' : World) × Runs (send_msg_to_node cfg me dst addr type) w tt w'
        × Sent (new_message me addr type cfg.node_latency) (dst ∷ []) w w'
  unfolding send_msg_to_node deliver
  send_msg_to_node-Sent dst addr type w h =
      let (w1, r1, s1) = count-Sent me 0 w (new_message me addr type cfg.node_latency) _ in
      let (w2, r2, s2) =
        add_to_incoming_msg_queue-Sent me dst w1 (new_message me addr type cfg.node_latency) in
      (
        w2,
        Runs-bind _ r1
            (Runs-if_true (ltb dst cfg.num_contexts) _ (lt→ltb dst cfg.num_contexts h) r2),
        Sent-append [] (dst ∷ []) s1 s2,
      )

  -- From `w` the program counts the targets on top of `n`, having sent the message to each.
  abbrev pub SendsTo : Exec World ℕ → Message → World → ℕ → List ℕ → Type 0
  SendsTo m msg w n targets =
      (w' : World) × Runs m w (n + length targets) w' × Sent msg targets w w'

  -- The loop over the sharers sends INVALIDATE to those that `wanted` lets through, and counts them.
  pub invalidate_sharers-SendsTo :
      (addr : ℕ) (wanted : ℕ → Bool) (id n : ℕ) (mask : List Bool) (w : World)
      → id + length mask ≤ cfg.num_contexts
      → SendsTo
          (invalidate_sharers cfg me addr wanted id n mask)
          (new_message me addr invalidate cfg.node_latency)
          w
          n
          (wanted_of wanted (holders id mask))
  unfolding invalidate_sharers holders
  invalidate_sharers-SendsTo addr wanted id n [] w h =
      (w, record { result = ap (λ k. ok (k, w)) {x = n} {y = n + 0} (omega arith) }, Sent-nil _ w)
  invalidate_sharers-SendsTo addr wanted id n (false ∷ mask) w h =
      let (w', r, s) = invalidate_sharers-SendsTo addr wanted (suc id) n mask w (omega arith) in
      (w', Runs-bind _ (Runs-pure n w) r, s)
  invalidate_sharers-SendsTo addr wanted id n (true ∷ mask) w h = elim (Bool-cases (wanted id)) [
    | inl e ↦
        let (w1, r1, s1) = send_msg_to_node-Sent id addr invalidate w (omega arith) in
        let (w2, r2, s2) =
          invalidate_sharers-SendsTo addr wanted (suc id) (suc n) mask w1 (omega arith) in
        subst (SendsTo _ _ w n) (kept e) (
          w2,
          subst (λ k. Runs (invalidate_sharers cfg me addr wanted id n (true ∷ mask)) w k w2)
              (counted (length (wanted_of wanted (holders (suc id) mask))))
              (Runs-bind _ (Runs-if_true (wanted id) _ e (Runs-bind _ r1 (Runs-pure (suc n) w1)))
                r2),
          Sent-append (id ∷ []) _ s1 s2,
        )
    | inr e ↦
        let (w', r, s) = invalidate_sharers-SendsTo addr wanted (suc id) n mask w (omega arith) in
        subst (SendsTo _ _ w n) (dropped e)
          (w', Runs-bind _ (Runs-if_false (wanted id) _ e (Runs-pure n w)) r, s)
  ]
    where
      counted : (k : ℕ) → suc n + k ≡ n + suc k
      counted k = omega arith

      kept :
          wanted id ≡ true
          → id ∷ wanted_of wanted (holders (suc id) mask)
            ≡ wanted_of wanted (holders id (true ∷ mask))
      kept e = rw (e, holders) refl

      dropped :
          wanted id ≡ false
          → wanted_of wanted (holders (suc id) mask) ≡ wanted_of wanted (holders id (true ∷ mask))
      dropped e = rw (e, holders) refl
