-- ===== src/Protocol/Misses.antt =====
-- READ_MISS and WRITE_MISS at the home node of a line.
use syncd_sim.Base.{
  ℕ, ◌<◌, ◌≡◌, ◌⊎◌, refl, ap, sym, ◌∙◌, subst, Bool, true, false, ◌||◌, arith, ◌==◌, inl, inr,
}
use syncd_sim.Base.Effects.{ok}
use syncd_sim.Types.{
  Message, data_value_reply, data_value_reply_e, DirectoryEntry, DirectoryEntryStatus, uncached,
  shared, modified, exclusive, mesi,
}
use syncd_sim.Directory.{is_shared, is_uncached}
use syncd_sim.Directory.Entries.{IsDirectory}
use syncd_sim.Directory.Updates.{status_of}
use syncd_sim.Context.{Config, World, lookup_directory_entry, get_context, home_node_id}
use syncd_sim.Handler.{done, has_to_wait}
use syncd_sim.Handler.Cases.{handle_write_miss}
use syncd_sim.Msi.Cases as MsiCases
use syncd_sim.Mesi.Cases as MesiCases
use syncd_sim.Base.Effects.Steps.{
  Runs, Runs-bind, Runs-pure, Runs-if_true, Runs-if_false, Runs-require,
}
use syncd_sim.Protocol.Grant.{Grants, reply-Grants}
use syncd_sim.Protocol.Look.{LooksUp, Quiet, lookup_directory_entry-Runs}

pub Runs-get_context : (me : ℕ) (w : World) → Runs (get_context me) w (w me) w
Runs-get_context me w = record { result = refl }

module _ (cfg : Config) (me : ℕ) (msg : Message) (again : Bool) (w : World)
    (i : IsDirectory cfg.num_contexts (w me).directory) (h : msg.source_id < cfg.num_contexts)
    (free : has_to_wait (w me) msg.addr again ≡ false) where
  -- The common start of the cases: the line is looked up.
  look :
      (w' : World) × (entry : DirectoryEntry) × Runs
        (lookup_directory_entry cfg me msg.addr)
        w
        entry
        w'
      × LooksUp cfg.num_contexts msg.addr (w me).directory (w' me).directory entry
      × Quiet w w'
  look = lookup_directory_entry-Runs cfg me msg.addr w i

  -- A WRITE_MISS for an uncached line that no request blocks is done: with a consistent directory
  -- and a context for a sender, the sender gets one DATA_VALUE_REPLY, no other context gets a
  -- message, the line is MODIFIED with the sender for its only holder, and other lines keep their
  -- entries.
  pub handle_write_miss-uncached :
      status_of (w me).directory msg.addr ≡ uncached
      → (w' : World) × (handle_write_miss cfg me msg again w ≡ ok (done, w'))
        × Grants cfg me msg.source_id msg.addr modified data_value_reply w w'
  unfolding handle_write_miss
  handle_write_miss-uncached u =
      let (w1, entry, r1, l, q) = look in
      let (w2, w3, r2, r3, g) =
        reply-Grants cfg me msg.source_id msg.addr h modified data_value_reply w w1 entry l q tt in
      (
        w3,
        (Runs-bind _ (Runs-get_context me w) (
            Runs-if_false (has_to_wait (w me) msg.addr again) _ free (
              Runs-bind _ r1 (
                Runs-if_true (is_uncached entry.status) _ (ap is_uncached (l.status_is ∙ u))
                  (Runs-bind _ r2 (Runs-bind _ r3 (Runs-pure done w3))))))).result,
        g,
      )

  -- Under MSI a READ_MISS for an uncached or shared line that no request blocks is done: with a
  -- consistent directory and a context for a sender, the sender gets one DATA_VALUE_REPLY, no
  -- other context gets a message, the line is SHARED, the sender joins its holders, and other
  -- lines keep their entries.
  pub handle_read_miss-msi :
      (status_of (w me).directory msg.addr ≡ uncached)
        ⊎ (status_of (w me).directory msg.addr ≡ shared)
      → (w' : World) × (MsiCases.handle_read_miss cfg me msg again w ≡ ok (done, w'))
        × Grants cfg me msg.source_id msg.addr shared data_value_reply w w'
  unfolding MsiCases.handle_read_miss
  handle_read_miss-msi u =
      let (w1, entry, r1, l, q) = look in
      let (w2, w3, r2, r3, g) =
        reply-Grants cfg me msg.source_id msg.addr h shared data_value_reply w w1 entry l q tt in
      (
        w3,
        (Runs-bind _ (Runs-get_context me w) (
            Runs-if_false (has_to_wait (w me) msg.addr again) _ free (
              Runs-bind _ r1 (
                Runs-if_true (is_shared entry.status || is_uncached entry.status) _
                  (subst (λ st. (is_shared st || is_uncached st) ≡ true) (sym l.status_is)
                    (readable _ u))
                  (Runs-bind _ r2 (Runs-bind _ r3 (Runs-pure done w3))))))).result,
        g,
      )
    where
      readable :
          (st : DirectoryEntryStatus)
          → (st ≡ uncached) ⊎ (st ≡ shared)
          → (is_shared st || is_uncached st) ≡ true
      readable st (inl e) = rw e refl
      readable st (inr e) = rw e refl

  module _ (home : me ≡ home_node_id cfg msg.addr) where
    at_home : (me == home_node_id cfg msg.addr) ≡ true
    at_home = ground arith

    -- The MESI handler is done with a READ_MISS for a shared line that no request blocks, at its
    -- home node: with a consistent directory and a context for a sender, the sender gets one
    -- DATA_VALUE_REPLY, no other context gets a message, the line stays SHARED, the sender joins
    -- its holders, and other lines keep their entries.
    pub handle_read_miss-mesi_shared :
        status_of (w me).directory msg.addr ≡ shared
        → (w' : World) × (MesiCases.handle_read_miss cfg me msg again w ≡ ok (done, w'))
          × Grants cfg me msg.source_id msg.addr shared data_value_reply w w'
    unfolding MesiCases.handle_read_miss
    handle_read_miss-mesi_shared u =
        let (w1, entry, r1, l, q) = look in
        let (w2, w3, r2, r3, g) =
          reply-Grants cfg me msg.source_id msg.addr h shared data_value_reply w w1 entry l q tt in
        (
          w3,
          (Runs-require (me == home_node_id cfg msg.addr) _ at_home (
              Runs-bind _ (Runs-get_context me w) (
                Runs-if_false (has_to_wait (w me) msg.addr again) _ free (
                  Runs-bind _ r1 (
                    Runs-if_true (is_shared entry.status) _ (ap is_shared (l.status_is ∙ u))
                      (Runs-bind _ r2 (Runs-bind _ r3 (Runs-pure done w3)))))))).result,
          g,
        )

    -- Under MESI a READ_MISS for an uncached line that no request blocks, at its home node, is
    -- done: with a consistent directory and a context for a sender, the sender gets one
    -- DATA_VALUE_REPLY_E, no other context gets a message, the line is EXCLUSIVE with the sender
    -- for its only holder, and other lines keep their entries.
    pub handle_read_miss-mesi_uncached :
        cfg.protocol ≡ mesi
        → status_of (w me).directory msg.addr ≡ uncached
        → (w' : World) × (MesiCases.handle_read_miss cfg me msg again w ≡ ok (done, w'))
          × Grants cfg me msg.source_id msg.addr exclusive data_value_reply_e w w'
    unfolding MesiCases.handle_read_miss
    handle_read_miss-mesi_uncached p u =
        let (w1, entry, r1, l, q) = look in
        let (w2, w3, r2, r3, g) =
          reply-Grants cfg me msg.source_id msg.addr h exclusive data_value_reply_e w w1 entry l q
            (p, u) in
        (
          w3,
          (Runs-require (me == home_node_id cfg msg.addr) _ at_home (
              Runs-bind _ (Runs-get_context me w) (
                Runs-if_false (has_to_wait (w me) msg.addr again) _ free (
                  Runs-bind _ r1 (
                    Runs-if_false (is_shared entry.status) _ (ap is_shared (l.status_is ∙ u)) (
                      Runs-if_true (is_uncached entry.status) _ (ap is_uncached (l.status_is ∙ u))
                        (Runs-bind _ r2 (Runs-bind _ r3 (Runs-pure done w3))))))))).result,
          g,
        )
