-- ===== src/Examples/Answers.antt =====
-- What a home node of two contexts answers.
use syncd_sim.Base.{
  arith, erase, ℕ, pos, ◌≡◌, refl, ap, sym, ◌/◌, ◌^◌, ◌-◌, inl, false, [], ◌∷◌, arith, empty_table,
}
use syncd_sim.Base.Effects.{ok, skip}
use syncd_sim.Types.{
  cache_eviction_alert, data_write_back, Message, new_message, shared, exclusive, modified,
  data_value_reply, data_value_reply_e, invalidate, fetch_invalidate,
}
use syncd_sim.Directory.Masks.{holders}
use syncd_sim.Context.{World, home_node_id}
use syncd_sim.Context.Home.{log2-pow}
use syncd_sim.Handler.{done, in_service, insert_pending}
use syncd_sim.Handler.Cases.{handle_write_miss}
use syncd_sim.Msi.Cases as MsiCases
use syncd_sim.Mesi.Cases as MesiCases
use syncd_sim.Msi
use syncd_sim.Mesi
use syncd_sim.Protocol.Send.{sent}
use syncd_sim.Protocol.Grant.{Grants}
use syncd_sim.Protocol.Misses.{
  handle_write_miss-uncached, handle_read_miss-msi, handle_read_miss-mesi_shared,
  handle_read_miss-mesi_uncached,
}
use syncd_sim.Protocol.Held.{handle_write_miss-shared, handle_write_miss-owned}
use syncd_sim.Protocol.Evictions.{
  handle_cache_eviction_alert-absent, handle_data_write_back-unasked,
}
use syncd_sim.Protocol.MemOp.{handle_mem_op_request-mesi}
use syncd_sim.Examples.Data.{
  msi_config, mesi_config, world_with, write_request, read_request, held, held_directory, read,
  read_directory,
}
use syncd_sim.Examples.Entries.{held-IsDirectory, read-IsDirectory, empty-IsDirectory}

home_of_512 : 0 ≡ home_node_id mesi_config 512
unfolding home_node_id
home_of_512 = ap (λ k. 512 / 2 ^ (48 - k)) (sym (log2-pow 1))

handle_write_miss-uncached_example :
    (w' : World) × (handle_write_miss msi_config 0 write_request false (world_with empty_table)
      ≡ ok (done, w'))
    × Grants msi_config 0 1 512 modified data_value_reply (world_with empty_table) w'
handle_write_miss-uncached_example =
    handle_write_miss-uncached msi_config 0 write_request false (world_with empty_table)
      empty-IsDirectory (omega arith) refl refl

handle_read_miss-msi_example :
    (w' : World) × (MsiCases.handle_read_miss msi_config 0 read_request false
        (world_with empty_table)
      ≡ ok (done, w'))
    × Grants msi_config 0 1 512 shared data_value_reply (world_with empty_table) w'
handle_read_miss-msi_example =
    handle_read_miss-msi msi_config 0 read_request false (world_with empty_table) empty-IsDirectory
      (omega arith) refl (inl refl)

handle_read_miss-mesi_shared_example :
    (w' : World) × (MesiCases.handle_read_miss mesi_config 0 read_request false
        (world_with read_directory)
      ≡ ok (done, w'))
    × Grants mesi_config 0 1 512 shared data_value_reply (world_with read_directory) w'
handle_read_miss-mesi_shared_example =
    handle_read_miss-mesi_shared mesi_config 0 read_request false (world_with read_directory)
      read-IsDirectory (omega arith) refl home_of_512 refl

handle_read_miss-mesi_uncached_example :
    (w' : World) × (MesiCases.handle_read_miss mesi_config 0 read_request false
        (world_with empty_table)
      ≡ ok (done, w'))
    × Grants mesi_config 0 1 512 exclusive data_value_reply_e (world_with empty_table) w'
handle_read_miss-mesi_uncached_example =
    handle_read_miss-mesi_uncached mesi_config 0 read_request false (world_with empty_table)
      empty-IsDirectory (omega arith) refl home_of_512 refl refl

handle_write_miss-shared_example :
    (w' : World) × (handle_write_miss msi_config 0 write_request false (world_with read_directory)
      ≡ ok (in_service, w'))
    × ((j : ℕ) → (w' j).incoming_msg_queue ≡ sent j (new_message 0 512 invalidate (pos 1)) (0 ∷ []))
    × ((w' 0).handler ≡ insert_pending 512 (pos 1) (world_with read_directory 0).handler)
unfolding holders
handle_write_miss-shared_example =
    handle_write_miss-shared msi_config 0 write_request false (world_with read_directory) read
      read-IsDirectory refl refl refl

handle_write_miss-owned_example :
    (p : ℕ) × (holders 0 held.processor_mask ≡ p ∷ [])
    × (w' : World) × (handle_write_miss msi_config 0 write_request false (world_with held_directory)
        ≡ ok (in_service, w'))
    × ((j : ℕ)
        → (w' j).incoming_msg_queue ≡ sent j (new_message 0 512 fetch_invalidate (pos 1)) (p ∷ []))
handle_write_miss-owned_example =
    handle_write_miss-owned msi_config 0 write_request false (world_with held_directory) held
      held-IsDirectory refl refl refl refl

handle_mem_op_request-mesi_example :
    Mesi.handle_mem_op_request mesi_config 0 (world_with empty_table)
    ≡ Msi.handle_mem_op_request mesi_config 0 (world_with empty_table)
handle_mem_op_request-mesi_example =
    handle_mem_op_request-mesi mesi_config 0 (world_with empty_table) refl

abbrev alert : Message
alert = new_message 0 512 cache_eviction_alert (pos 0)

abbrev stale : Message
stale = new_message 0 512 data_write_back (pos 0)

handle_cache_eviction_alert-absent_example :
    (w' : World) × (MsiCases.handle_cache_eviction_alert mesi_config 1 alert
        (world_with empty_table)
      ≡ ok (done, w'))
    × (MesiCases.handle_cache_eviction_alert mesi_config 1 alert (world_with empty_table)
        ≡ ok (done, w'))
    × ((j : ℕ)
        → (w' j).incoming_msg_queue
          ≡ sent j (new_message 1 512 data_write_back (pos 1)) (home_node_id mesi_config 512 ∷ []))
handle_cache_eviction_alert-absent_example =
    handle_cache_eviction_alert-absent mesi_config 1 alert (world_with empty_table)
      (record { exponent = 1; power = refl; small = omega arith }) (omega arith) refl

-- Context 0 writes back a line that context 1 holds.
handle_data_write_back-unasked_example :
    (w' : World) × (MsiCases.handle_data_write_back msi_config 0
        (λ a. skip)
        stale
        (world_with held_directory)
      ≡ ok (done, w'))
    × (MesiCases.handle_data_write_back msi_config 0 (λ a. skip) stale (world_with held_directory)
        ≡ ok (done, w'))
    × ((w' 0).directory ≡ erase held_directory 512)
    × ((j : ℕ) → (w' j).incoming_msg_queue ≡ [])
handle_data_write_back-unasked_example =
    handle_data_write_back-unasked msi_config 0 stale (world_with held_directory) (λ a. skip) held
      refl refl
