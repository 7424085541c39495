-- ===== src/Protocol/Evictions.antt =====
-- Evictions: CACHE_EVICTION_ALERT at the context whose cache evicts, and DATA_WRITE_BACK with no
-- request at the home node.
use syncd_sim.Base.{
  ℕ, pos, ◌^◌, ◌<◌, ◌≡◌, refl, ap, ◌∙◌, none, some, get_or, [], ◌∷◌, ◌++◌, erase, Table,
}
use syncd_sim.Base.Effects.{Exec, ok}
use syncd_sim.Types.{
  Message, new_message, data_write_back, DirectoryEntry, ProtocolStatus, ProtocolType, uncached,
}
use syncd_sim.Directory.{update_entry}
use syncd_sim.Context.{Config, World, home_node_id}
use syncd_sim.Context.Home.{IsConfig, home_node_id-lt}
use syncd_sim.Handler.{done, is_some, erase_line_status}
use syncd_sim.Msi.Cases.{is_m, line_status}
use syncd_sim.Msi.Cases as MsiCases
use syncd_sim.Mesi.Cases as MesiCases
use syncd_sim.Mesi.Cases.{is_m_or_e}
use syncd_sim.Base.Effects.Steps.{Runs-bind, Runs-pure, Runs-if_true, Runs-if_false}
use syncd_sim.Protocol.Send.{sent, send_msg_to_node-Sent}
use syncd_sim.Protocol.Look.{update_directory_entry-Runs}
use syncd_sim.Protocol.Misses.{Runs-get_context}
use syncd_sim.Protocol.Held.{update_handler-Runs}

update_entry-uncached :
    (protocol : ProtocolType) (n : ℕ) (d : Table DirectoryEntry) (addr p : ℕ)
    (entry : DirectoryEntry)
    → d addr ≡ some entry
    → update_entry protocol n d addr uncached (pos p) ≡ ok (erase d addr)
unfolding update_entry
update_entry-uncached protocol n d addr p entry there = rw (there, update_entry) refl

module _ (cfg : Config) (me : ℕ) (msg : Message) (w : World) where
  -- With a power of two up to 2 ^ 48 for the number of contexts, an eviction alert on a 48-bit
  -- address for which the context has no cache line status is done under both protocols, and sends
  -- a DATA_WRITE_BACK to the home node of the line and no other message.
  pub handle_cache_eviction_alert-absent :
      IsConfig cfg
      → msg.addr < 2 ^ 48
      → (w me).handler.cache_line_status msg.addr ≡ none
      → (w' : World) × (MsiCases.handle_cache_eviction_alert cfg me msg w ≡ ok (done, w'))
        × (MesiCases.handle_cache_eviction_alert cfg me msg w ≡ ok (done, w'))
        × ((j : ℕ)
            → (w' j).incoming_msg_queue
              ≡ (w j).incoming_msg_queue
                ++ sent j
                    (new_message me msg.addr data_write_back cfg.node_latency)
                    (home_node_id cfg msg.addr ∷ []))
  unfolding MsiCases.handle_cache_eviction_alert MesiCases.handle_cache_eviction_alert
  handle_cache_eviction_alert-absent i h absent =
      let (w1, r1, s) =
        send_msg_to_node-Sent cfg me (home_node_id cfg msg.addr) msg.addr data_write_back w
          (home_node_id-lt cfg msg.addr i h) in
      let (w2, r2, quiet, e) = update_handler-Runs me (erase_line_status msg.addr) w1 in
      let st = ap (λ o. get_or o ProtocolStatus.m) absent in
      (
        w2,
        (Runs-bind _ (Runs-get_context me w) (
            Runs-bind _ (Runs-if_true (is_m (line_status (w me) msg.addr)) _ (ap is_m st) r1)
              (Runs-bind _ r2 (Runs-pure done w2)))).result,
        (Runs-bind _ (Runs-get_context me w) (
            Runs-bind _
              (Runs-if_true (is_m_or_e (line_status (w me) msg.addr)) _ (ap is_m_or_e st) r1)
              (Runs-bind _ r2 (Runs-pure done w2)))).result,
        (λ j. quiet j ∙ s.incoming j),
      )

  -- A DATA_WRITE_BACK for a line that has a directory entry and no queue of blocked messages is
  -- done under both protocols: whoever sends it, the entry is erased, other entries stay, and no
  -- message is sent.
  pub handle_data_write_back-unasked :
      (check : ℕ → Exec World (Unit {0})) (entry : DirectoryEntry)
      → (w me).handler.blocked_msg_map msg.addr ≡ none
      → (w me).directory msg.addr ≡ some entry
      → (w' : World) × (MsiCases.handle_data_write_back cfg me check msg w ≡ ok (done, w'))
        × (MesiCases.handle_data_write_back cfg me check msg w ≡ ok (done, w'))
        × ((w' me).directory ≡ erase (w me).directory msg.addr)
        × ((j : ℕ) → (w' j).incoming_msg_queue ≡ (w j).incoming_msg_queue)
  unfolding MsiCases.handle_data_write_back MesiCases.handle_data_write_back
  handle_data_write_back-unasked check entry free there =
      let (w1, r1, d, quiet) =
        update_directory_entry-Runs cfg me msg.addr msg.source_id uncached w _ (
          update_entry-uncached cfg.protocol cfg.num_contexts (w me).directory msg.addr
            msg.source_id entry there) in
      let none_waits = ap is_some free in
      (
        w1,
        (Runs-bind _ (Runs-get_context me w) (
            Runs-if_false (is_some ((w me).handler.blocked_msg_map msg.addr)) _ none_waits
              (Runs-bind _ r1 (Runs-pure done w1)))).result,
        (Runs-bind _ (Runs-get_context me w) (
            Runs-if_false (is_some ((w me).handler.blocked_msg_map msg.addr)) _ none_waits
              (Runs-bind _ r1 (Runs-pure done w1)))).result,
        d,
        quiet.incoming,
      )
