-- ===== src/Fuel/Cases.antt =====
-- The cases of `handleMessage` for a request, and the queues of blocked messages.
use syncd_sim.Base.{ℕ, pos, ◌≡◌, refl, Bool, not, ◌||◌, ◌==◌, ltb}
use syncd_sim.Base.Effects.{Exec}
use syncd_sim.Types.{
  Message, MessageType, write_miss, read_miss, invalidate, invalidate_other, fetch,
  fetch_invalidate, ProtocolStatus, DirectoryEntryStatus,
}
use syncd_sim.Directory.{is_shared, is_uncached}
use syncd_sim.Context.{
  Config, Context, World, Handler, home_node_id, update_handler, lookup_directory_entry,
  update_directory_entry,
}
use syncd_sim.Handler.{
  send_msg_to_node, send_msg_to_cache, has_to_wait, find_owner, insert_pending, put_line_status,
  erase_line_status,
}
use syncd_sim.Handler.Cases.{handle_write_miss, handle_invalidate_other}
use syncd_sim.Msi.Cases as MsiCases
use syncd_sim.Mesi.Cases as MesiCases
use syncd_sim.Fuel.Triples.{
  Gives, Gives-bind, Gives-then, Gives-if, Gives-pure, Gives-gets, Gives-require,
}
use syncd_sim.Fuel.Context.{
  Has, IsApart, update_handler-Has, send_msg_to_node-Has, send_msg_to_cache-Has,
  invalidate_sharers-Has, lookup_directory_entry-Has, update_directory_entry-Has,
}

-- The types of message that wait.
abbrev pub IsRequest : MessageType → Type 0
IsRequest read_miss = Unit
IsRequest write_miss = Unit
IsRequest invalidate_other = Unit
IsRequest invalidate = Unit
IsRequest fetch = Unit
IsRequest fetch_invalidate = Unit
IsRequest _ = ⊥

module _ (cfg : Config) (me : ℕ) {X : Type 0} (F : Context → X) (P : X → Type 0)
    (apart : IsApart me F P) (msg : Message) where
  -- The statement is left as it is by `m`.
  abbrev pub Left : {A : Type 0} → Exec World A → Type 0
  Left m = Gives (Has me F P) m (λ _. Has me F P)

  node : (dst : ℕ) (type : MessageType) → Left (send_msg_to_node cfg me dst msg.addr type)
  node dst type = send_msg_to_node-Has me F P apart cfg me dst msg.addr type

  ask : (type : MessageType) → Left (send_msg_to_cache cfg me msg.addr type)
  ask type = send_msg_to_cache-Has me F P apart cfg me msg.addr type

  look : Left (lookup_directory_entry cfg me msg.addr)
  look = lookup_directory_entry-Has me F P apart cfg me msg.addr

  grant :
      (status : DirectoryEntryStatus)
      → Left (update_directory_entry cfg me msg.addr status (pos msg.source_id))
  grant status = update_directory_entry-Has me F P apart cfg me msg.addr status msg.source_id

  flags :
      (f : Handler → Handler)
      → ((h : Handler) → (f h).blocked_msg_map ≡ h.blocked_msg_map)
      → Left (update_handler me f)
  flags f same = update_handler-Has me F P apart me f same

  pub write_miss-Left : (again : Bool) → Left (handle_write_miss cfg me msg again)
  unfolding handle_write_miss
  write_miss-Left again = Gives-bind (Gives-gets _) λ c.
      Gives-if (has_to_wait c msg.addr again) (λ _. Gives-pure _)
        λ _. Gives-bind look λ entry.
          Gives-if (is_uncached entry.status)
            (λ _. Gives-then (node _ _) (Gives-then (grant _) (Gives-pure _)))
            λ _.
              Gives-if (is_shared entry.status)
                (λ _.
                  Gives-bind
                    (invalidate_sharers-Has me F P apart cfg me msg.addr _ 0 0 entry.processor_mask)
                    λ n.
                      Gives-then (flags (insert_pending msg.addr (pos n)) (λ h. refl))
                        (Gives-pure _))
                λ _.
                  Gives-then
                    (Gives-require (ltb (find_owner 0 entry.processor_mask) cfg.num_contexts))
                    (Gives-then (node _ _) (Gives-pure _))

  pub invalidate_other-Left : (again : Bool) → Left (handle_invalidate_other cfg me msg again)
  unfolding handle_invalidate_other
  invalidate_other-Left again = Gives-then (Gives-require (home_node_id cfg msg.addr == me)) (
      Gives-bind (Gives-gets _) λ c.
        Gives-if (has_to_wait c msg.addr again) (λ _. Gives-pure _)
          λ _. Gives-bind look λ entry.
            Gives-if (not (is_shared entry.status)) (λ _. Gives-then (node _ _) (Gives-pure _))
              λ _.
                Gives-bind
                  (invalidate_sharers-Has me F P apart cfg me msg.addr _ 0 0 entry.processor_mask)
                  λ n.
                    Gives-if (ltb 0 n)
                      (λ _.
                        Gives-then (flags (insert_pending msg.addr (pos n)) (λ h. refl))
                          (Gives-pure _))
                      λ _. Gives-then (grant _) (Gives-then (node _ _) (Gives-pure _)))

  pub msi_read_miss-Left : (again : Bool) → Left (MsiCases.handle_read_miss cfg me msg again)
  unfolding MsiCases.handle_read_miss
  msi_read_miss-Left again = Gives-bind (Gives-gets _) λ c.
      Gives-if (has_to_wait c msg.addr again) (λ _. Gives-pure _)
        λ _. Gives-bind look λ entry.
          Gives-if (is_shared entry.status || is_uncached entry.status)
            (λ _. Gives-then (node _ _) (Gives-then (grant _) (Gives-pure _)))
            λ _. Gives-then (node _ _) (Gives-pure _)

  pub msi_invalidate-Left : Left (MsiCases.handle_invalidate cfg me msg)
  unfolding MsiCases.handle_invalidate
  msi_invalidate-Left = Gives-bind (Gives-gets _) λ c.
      Gives-if (not (MsiCases.is_cached c msg.addr)) (λ _. Gives-then (node _ _) (Gives-pure _))
        λ _.
          Gives-then (flags (erase_line_status msg.addr) (λ h. refl))
            (Gives-then (ask _) (Gives-pure _))

  pub msi_fetch-Left : Left (MsiCases.handle_fetch cfg me msg)
  unfolding MsiCases.handle_fetch
  msi_fetch-Left = Gives-bind (Gives-gets _) λ c.
      Gives-if (not (MsiCases.is_cached c msg.addr)) (λ _. Gives-pure _)
        λ _. Gives-then (Gives-require (MsiCases.is_m (MsiCases.line_status c msg.addr))) (
          Gives-then (flags (put_line_status msg.addr ProtocolStatus.s) (λ h. refl))
            (Gives-then (ask _) (Gives-pure _)))

  pub msi_fetch_invalidate-Left : Left (MsiCases.handle_fetch_invalidate cfg me msg)
  unfolding MsiCases.handle_fetch_invalidate
  msi_fetch_invalidate-Left = Gives-bind (Gives-gets _) λ c.
      Gives-if (not (MsiCases.is_cached c msg.addr)) (λ _. Gives-pure _)
        λ _. Gives-then (Gives-require (MsiCases.is_m (MsiCases.line_status c msg.addr))) (
          Gives-then (flags (erase_line_status msg.addr) (λ h. refl))
            (Gives-then (ask _) (Gives-pure _)))

  pub mesi_read_miss-Left : (again : Bool) → Left (MesiCases.handle_read_miss cfg me msg again)
  unfolding MesiCases.handle_read_miss
  mesi_read_miss-Left again = Gives-then (Gives-require (me == home_node_id cfg msg.addr)) (
      Gives-bind (Gives-gets _) λ c.
        Gives-if (has_to_wait c msg.addr again) (λ _. Gives-pure _)
          λ _. Gives-bind look λ entry.
            Gives-if (is_shared entry.status)
              (λ _. Gives-then (node _ _) (Gives-then (grant _) (Gives-pure _)))
              λ _.
                Gives-if (is_uncached entry.status)
                  (λ _. Gives-then (node _ _) (Gives-then (grant _) (Gives-pure _)))
                  λ _.
                    Gives-then
                      (Gives-require (ltb (find_owner 0 entry.processor_mask) cfg.num_contexts))
                      (Gives-then (node _ _) (Gives-pure _)))

  pub mesi_invalidate-Left : Left (MesiCases.handle_invalidate cfg me msg)
  unfolding MesiCases.handle_invalidate
  mesi_invalidate-Left = Gives-then (Gives-require (msg.source_id == home_node_id cfg msg.addr)) (
      Gives-bind (Gives-gets _) λ c.
        Gives-if (not (MsiCases.is_cached c msg.addr)) (λ _. Gives-then (node _ _) (Gives-pure _))
          λ _.
            Gives-then (flags (erase_line_status msg.addr) (λ h. refl))
              (Gives-then (ask _) (Gives-pure _)))

  pub mesi_fetch-Left : Left (MesiCases.handle_fetch cfg me msg)
  unfolding MesiCases.handle_fetch
  mesi_fetch-Left = Gives-bind (Gives-gets _) λ c.
      Gives-if (not (MsiCases.is_cached c msg.addr)) (λ _. Gives-pure _)
        λ _. Gives-then (Gives-require (MesiCases.is_m_or_e (MsiCases.line_status c msg.addr))) (
          Gives-then (flags (put_line_status msg.addr ProtocolStatus.s) (λ h. refl))
            (Gives-then (ask _) (Gives-pure _)))

  pub mesi_fetch_invalidate-Left : Left (MesiCases.handle_fetch_invalidate cfg me msg)
  unfolding MesiCases.handle_fetch_invalidate
  mesi_fetch_invalidate-Left = Gives-bind (Gives-gets _) λ c.
      Gives-if (not (MsiCases.is_cached c msg.addr)) (λ _. Gives-pure _)
        λ _. Gives-then (Gives-require (MesiCases.is_m_or_e (MsiCases.line_status c msg.addr))) (
          Gives-then (flags (erase_line_status msg.addr) (λ h. refl))
            (Gives-then (ask _) (Gives-pure _)))
