-- ===== src/Protocol/Grant.antt =====
-- A home node that grants a line: its reply to the requester and its record of it.
use syncd_sim.Base.{
  ℕ, pos, ◌<◌, ◌≡◌, ◌≢◌, refl, ap, sym, ◌∙◌, subst, false, [], ◌∷◌, ◌++◌, none, some, Table, arith,
  length, Option-cases, inl, inr, assign, ◌⊎◌,
}
use syncd_sim.Base.Effects.{ok}
use syncd_sim.Types.{
  MessageType, new_message, DirectoryEntry, DirectoryEntryStatus, uncached, shared, modified,
  exclusive, ProtocolType, mesi,
}
use syncd_sim.Directory.{update_entry, new_mask, update_existing}
use syncd_sim.Directory.Entries.{
  IsDirectory, update_existing-shared, update_existing-modified, update_existing-exclusive,
}
use syncd_sim.Directory.Updates.{bit, status_of, holds, granted, update_entry-granted}
use syncd_sim.Context.{Config, World, update_directory_entry}
use syncd_sim.Handler.{send_msg_to_node}
use syncd_sim.Base.Effects.Steps.{Runs}
use syncd_sim.Protocol.Send.{sent, send_msg_to_node-Sent}
use syncd_sim.Protocol.Look.{Quiet, LooksUp, update_directory_entry-Runs}

-- The statuses that a line with the old status may be granted with.
abbrev pub MayGrant : ProtocolType → DirectoryEntryStatus → DirectoryEntryStatus → Type 0
MayGrant p old uncached = ⊥
MayGrant p old shared = Unit
MayGrant p old modified = Unit
MayGrant p old exclusive = (p ≡ mesi) × (old ≡ uncached)

module _ (cfg : Config) (d : Table DirectoryEntry) (i : IsDirectory cfg.num_contexts d) (addr p : ℕ)
    (h : p < cfg.num_contexts) where
  update_entry_ok :
      (status : DirectoryEntryStatus)
      → MayGrant cfg.protocol (status_of d addr) status
      → (d' : Table DirectoryEntry) × (update_entry cfg.protocol cfg.num_contexts d addr status
            (pos p)
          ≡ ok d')
  unfolding update_entry
  update_entry_ok status may = elim (Option-cases (d addr)) [
    | inl e ↦ (
      assign d addr
          (record { processor_mask = new_mask (pos p) 0 cfg.num_contexts; status = status }),
      rw (e, update_entry) refl,
    )
    | inr (entry, e) ↦
        let (d', q) = existing entry (i addr entry e).width status (rw (e, status_of) at may) in
        (d', rw (e, update_entry) q)
  ]
    where
      existing :
          (entry : DirectoryEntry)
          → length entry.processor_mask ≡ cfg.num_contexts
          → (status : DirectoryEntryStatus) → MayGrant cfg.protocol entry.status status
          → (d' : Table DirectoryEntry) × (update_existing cfg.protocol cfg.num_contexts d addr
                entry status
                (pos p)
              ≡ ok d')
      existing entry w uncached may = elim may [ ]
      existing entry w shared may =
          (_, update_existing-shared cfg.protocol cfg.num_contexts d addr p i h entry (omega arith))
      existing entry w modified may =
          (_, update_existing-modified cfg.protocol cfg.num_contexts d addr p i h entry w)
      existing entry w exclusive may = (
        _,
        update_existing-exclusive cfg.protocol cfg.num_contexts d addr p i h entry w
            (rw (may.0, may.1) refl),
      )

  MayGrant-uncached :
      (status : DirectoryEntryStatus) (old : DirectoryEntryStatus)
      → MayGrant cfg.protocol old status
      → status ≢ uncached
  MayGrant-uncached uncached old may = elim may [ ]
  MayGrant-uncached shared old may = λ e. cc
  MayGrant-uncached modified old may = λ e. cc
  MayGrant-uncached exclusive old may = λ e. cc

-- Context `me` grants the line of `addr` to `p` with a status and a message of a type: the message
-- goes to the end of the queue of `p`; the line gets the status; `p` joins the holders of a shared
-- line, and is the only holder of any other; the entries of other lines stay.
pub record Grants (cfg : Config) (me p addr : ℕ) (status : DirectoryEntryStatus)
    (type : MessageType) (w w' : World) : Type 0 where
  pub reply :
      (j : ℕ)
      → (w' j).incoming_msg_queue
        ≡ (w j).incoming_msg_queue ++ sent j (new_message me addr type cfg.node_latency) (p ∷ [])
  pub status_is : status_of (w' me).directory addr ≡ status
  pub holders_are :
      (j : ℕ) → holds (w' me).directory addr j ≡ granted status p (holds (w me).directory addr j) j
  pub others : (a : ℕ) → (addr ≡ a) ⊎ ((w' me).directory a ≡ (w me).directory a)

module _ (cfg : Config) (me p addr : ℕ) (h : p < cfg.num_contexts) where
  -- The reply and the update that follow a look-up.
  pub reply-Grants :
      (status : DirectoryEntryStatus) (type : MessageType) (w w1 : World) (entry : DirectoryEntry)
      → LooksUp cfg.num_contexts addr (w me).directory (w1 me).directory entry
      → Quiet w w1
      → MayGrant cfg.protocol (status_of (w me).directory addr) status
      → (w2 w' : World) × Runs (send_msg_to_node cfg me p addr type) w1 tt w2
        × Runs (update_directory_entry cfg me addr status (pos p)) w2 tt w'
        × Grants cfg me p addr status type w w'
  reply-Grants status type w w1 entry l q may =
      let (w2, r2, s) = send_msg_to_node-Sent cfg me p addr type w1 h in
      let i = subst (IsDirectory cfg.num_contexts) (sym (s.directory me)) l.consistent in
      let seen = ap (λ o. elim o [ none ↦ uncached | some r ↦ r.status ]) l.there ∙ l.status_is in
      let may' =
        subst (λ st. MayGrant cfg.protocol st status)
          (sym (ap (λ d. status_of d addr) (s.directory me) ∙ seen)) may in
      let (d, e) = update_entry_ok cfg (w2 me).directory i addr p h status may' in
      let (w3, r3, into, quiet) = update_directory_entry-Runs cfg me addr p status w2 d e in
      let g =
        update_entry-granted cfg.protocol cfg.num_contexts (w2 me).directory d addr p status i h
          (MayGrant-uncached cfg (w2 me).directory i addr p h status _ may') e in
      (
        w2,
        w3,
        r2,
        r3,
        record {
          reply = λ j.
              quiet.incoming j
              ∙ s.incoming j
              ∙ ap (λ m. m ++ sent j (new_message me addr type cfg.node_latency) (p ∷ []))
                  (q.incoming j);
          status_is = ap (λ t. status_of t addr) into ∙ g.0;
          holders_are = λ j.
              ap (λ t. holds t addr j) into
              ∙ g.1 j
              ∙ ap (λ b. granted status p b j)
                  (ap (λ t. holds t addr j) (s.directory me)
                    ∙ ap (λ o. elim o [ none ↦ false | some r ↦ bit r.processor_mask j ]) l.there
                    ∙ l.bits j);
          others = λ a. elim (g.2 a) [
            | inl same ↦ inl same
            | inr kept ↦ elim (l.others a) [
              | inl same ↦ inl same
              | inr e ↦ inr (ap (λ t. t a) into ∙ kept ∙ ap (λ t. t a) (s.directory me) ∙ e)
            ]
          ];
        },
      )
