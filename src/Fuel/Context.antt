-- ===== src/Fuel/Context.antt =====
-- Members of a context that a statement leaves.
use syncd_sim.Base.{
  zero, inl, inr, Bool-cases, set, ℕ, suc, pos, ◌≡◌, Bool, true, false, ◌&&◌, List, [], ◌∷◌, Option,
  none, some, Table, assign, length, ltb, subst, sym, if◌then◌else◌,
}
use syncd_sim.Base.Effects.{Fault, Result, ok, err, no_context, no_processor, assertion}
use syncd_sim.Types.{
  Message, MessageType, DirectoryEntry, DirectoryEntryStatus, uncached, shared, modified, exclusive,
  ProtocolType, invalidate,
}
use syncd_sim.Directory.{update_entry, update_existing, new_mask, fill_mask, is_id}
use syncd_sim.Context.{
  Config, Context, World, Handler, Stats, put_context, update_context, count, deliver,
  add_to_cache_msg_queue, add_to_incoming_msg_queue, update_handler, lookup_directory_entry,
  update_directory_entry,
}
use syncd_sim.Handler.{send_msg_to_node, send_msg_to_cache, invalidate_sharers}
use syncd_sim.Protocol.Send.{put_context-same}
use syncd_sim.Fuel.{IsReal}
use syncd_sim.Fuel.Triples.{
  Gives, Outcome, Gives-bind, Gives-then, Gives-if, Gives-pure, Gives-fail,
}

abbrev Stops : Result (Table DirectoryEntry) → Type 0
Stops (ok d) = Unit
Stops (err e) = IsReal e

-- `updateEntry` stops with faults of the program only.
update_entry_real :
    (protocol : ProtocolType) (n : ℕ) (d : Table DirectoryEntry) (addr : ℕ)
    (status : DirectoryEntryStatus) (p : ℕ)
    → Stops (update_entry protocol n d addr status (pos p))
unfolding update_entry fill_mask
update_entry_real protocol n d addr status p = by_entry (d addr) status
  where
    by_test :
        (b : Bool) (r : Result (Table DirectoryEntry)) (e : Fault)
        → Stops r
        → IsReal e
        → Stops (if b then r else err e)
    by_test true r e q h = q
    by_test false r e q h = h

    by_fill :
        (i k : ℕ) (mask : List Bool) (f : List Bool → Table DirectoryEntry)
        → Stops (elim (fill_mask (pos p) i k mask) [ ok m ↦ ok (f m) | err e ↦ err e ])
    by_fill i zero mask f = tt
    by_fill i (suc k) mask f = elim (Bool-cases (ltb i (length mask))) [
      | inl e ↦ rw (e, fill_mask) (by_fill (suc i) k (set mask i (is_id (pos p) i)) f)
      | inr e ↦ rw (e, fill_mask, Stops) (λ e. cc)
    ]

    by_bit :
        (b : Bool) (mask : List Bool) (f : List Bool → Table DirectoryEntry)
        → Stops (elim (if b then ok mask else err no_processor) [ ok m ↦ ok (f m) | err e ↦ err e ])
    by_bit true mask f = tt
    by_bit false mask f = λ e. cc

    existing :
        (entry : DirectoryEntry) (status : DirectoryEntryStatus)
        → Stops (update_existing protocol n d addr entry status (pos p))
    existing entry uncached = tt
    existing entry shared = by_bit (ltb p (length entry.processor_mask)) _ _
    existing entry modified = by_fill 0 n entry.processor_mask _
    existing entry exclusive = by_test _ _ assertion (by_fill 0 n entry.processor_mask _) (λ e. cc)

    by_entry :
        (o : Option DirectoryEntry) (status : DirectoryEntryStatus)
        → Stops (elim o [
          | none ↦
              ok (assign d addr (record { processor_mask = new_mask (pos p) 0 n; status = status }))
          | some entry ↦ update_existing protocol n d addr entry status (pos p)
        ])
    by_entry none status = tt
    by_entry (some entry) status = existing entry status

-- `F` of context `me` satisfies `P`.
pub record Has {X : Type 0} (me : ℕ) (F : Context → X) (P : X → Type 0) (w : World) : Type 0 where
  pub has : P (F (w me))

module _ {X : Type 0} (me : ℕ) (F : Context → X) (P : X → Type 0) where
  pub update_context-Has :
      (id : ℕ) (f : Context → Context)
      → ((c : Context) → F (f c) ≡ F c)
      → Gives (Has me F P) (update_context id f) (λ _. Has me F P)
  unfolding update_context
  update_context-Has id f h = record {
    apply = λ w p. record {
      has = subst P (sym (put_context-same F w id me (f (w id)) (h (w id)))) p.has;
    };
  }

  -- What the statements of a handler leave, for an `F` that reads no queue of messages, no counter,
  -- no directory, and of the handler at most the blocked messages.
  pub record IsApart : Type 0 where
    pub count : (f : Stats → Stats) (c : Context) → F (record c { stats = f c.stats }) ≡ F c
    pub incoming : (q : List Message) (c : Context) → F (record c { incoming_msg_queue = q }) ≡ F c
    pub to_cache : (q : List Message) (c : Context) → F (record c { cache_msg_queue = q }) ≡ F c
    pub handler :
        (f : Handler → Handler)
        → ((h : Handler) → (f h).blocked_msg_map ≡ h.blocked_msg_map)
        → (c : Context) → F (record c { handler = f c.handler }) ≡ F c
    pub directory : (d : Table DirectoryEntry) (c : Context) → F (record c { directory = d }) ≡ F c

  module _ (apart : IsApart) where
    pub count-Has : (id : ℕ) (f : Stats → Stats) → Gives (Has me F P) (count id f) (λ _. Has me F P)
    unfolding count
    count-Has id f = update_context-Has id _ (apart.count f)

    pub update_handler-Has :
        (id : ℕ) (f : Handler → Handler)
        → ((h : Handler) → (f h).blocked_msg_map ≡ h.blocked_msg_map)
        → Gives (Has me F P) (update_handler id f) (λ _. Has me F P)
    unfolding update_handler
    update_handler-Has id f same = update_context-Has id _ (apart.handler f same)

    pub add_to_cache_msg_queue-Has :
        (id : ℕ) (msg : Message)
        → Gives (Has me F P) (add_to_cache_msg_queue id msg) (λ _. Has me F P)
    unfolding add_to_cache_msg_queue
    add_to_cache_msg_queue-Has id msg = update_context-Has id _ (λ c. apart.to_cache _ c)

    pub send_msg_to_node-Has :
        (cfg : Config) (id dst addr : ℕ) (type : MessageType)
        → Gives (Has me F P) (send_msg_to_node cfg id dst addr type) (λ _. Has me F P)
    unfolding send_msg_to_node deliver add_to_incoming_msg_queue
    send_msg_to_node-Has cfg id dst addr type = Gives-then (count-Has id _) (
        Gives-if (ltb dst cfg.num_contexts)
          (λ _. update_context-Has dst _ (λ c. apart.incoming _ c))
          (λ _. Gives-fail no_context (λ e. cc)))

    pub send_msg_to_cache-Has :
        (cfg : Config) (id addr : ℕ) (type : MessageType)
        → Gives (Has me F P) (send_msg_to_cache cfg id addr type) (λ _. Has me F P)
    unfolding send_msg_to_cache
    send_msg_to_cache-Has cfg id addr type =
        Gives-then (count-Has id _) (add_to_cache_msg_queue-Has id _)

    pub invalidate_sharers-Has :
        (cfg : Config) (id addr : ℕ) (wanted : ℕ → Bool) (i n : ℕ) (mask : List Bool)
        → Gives (Has me F P) (invalidate_sharers cfg id addr wanted i n mask) (λ _. Has me F P)
    unfolding invalidate_sharers
    invalidate_sharers-Has cfg id addr wanted i n [] = Gives-pure n
    invalidate_sharers-Has cfg id addr wanted i n (b ∷ mask) =
        Gives-bind {Q = λ _. Has me F P}
          (Gives-if (b && wanted i)
            (λ _. Gives-then (send_msg_to_node-Has cfg id i addr invalidate) (Gives-pure (suc n)))
            (λ _. Gives-pure n))
          (λ k. invalidate_sharers-Has cfg id addr wanted (suc i) k mask)

    put_directory-Has :
        (w : World) (id : ℕ) (d : Table DirectoryEntry)
        → Has me F P w
        → Has me F P (put_context w id (record (w id) { directory = d }))
    put_directory-Has w id d p = record {
      has = subst P (sym (put_context-same F w id me _ (apart.directory d (w id)))) p.has;
    }

    pub lookup_directory_entry-Has :
        (cfg : Config) (id addr : ℕ)
        → Gives (Has me F P) (lookup_directory_entry cfg id addr) (λ _. Has me F P)
    unfolding lookup_directory_entry
    lookup_directory_entry-Has cfg id addr = record { apply = λ w p. put_directory-Has w id _ p }

    pub update_directory_entry-Has :
        (cfg : Config) (id addr : ℕ) (status : DirectoryEntryStatus) (pid : ℕ)
        → Gives (Has me F P) (update_directory_entry cfg id addr status (pos pid)) (λ _. Has me F P)
    unfolding update_directory_entry
    update_directory_entry-Has cfg id addr status pid = record {
      apply = λ w p.
          stored w p
            (update_entry cfg.protocol cfg.num_contexts (w id).directory addr status (pos pid))
            (update_entry_real cfg.protocol cfg.num_contexts (w id).directory addr status pid);
    }
      where
        stored :
            (w : World)
            → Has me F P w
            → (r : Result (Table DirectoryEntry)) → Stops r
            → Outcome {A = Unit {0}}
                (λ _. Has me F P)
                (elim r [
                  | ok d ↦ ok (tt, put_context w id (record (w id) { directory = d }))
                  | err e ↦ err e
                ])
        stored w p (ok d) h = put_directory-Has w id d p
        stored w p (err e) h = h
