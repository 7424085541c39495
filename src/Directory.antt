-- ===== src/Directory.antt =====
-- backend/Simulator/directory.hpp and directory.cpp: a full bit vector directory. The functions take
-- the number of contexts and the protocol, which the class reads from elsewhere.
pub mod Masks
pub mod Entries
pub mod Updates
use syncd_sim.Base.{
  ℕ, suc, zero, ℤ, pos, negsuc, Bool, true, false, ◌&&◌, List, [], ◌∷◌, Option, none, some, ◌==◌,
  if◌then◌else◌, length, ltb, set, Table, assign, erase, empty_table,
}
use syncd_sim.Base.Effects.{Fault, Result, ok, err, no_processor, assertion}
use syncd_sim.Types.{
  ProtocolType, msi, mesi, DirectoryEntryStatus, uncached, shared, modified, exclusive,
  DirectoryEntry,
}

-- `i == procID`
abbrev pub is_id : ℤ → ℕ → Bool
is_id (pos p) i = i == p
is_id (negsuc p) i = false

-- The loop that pushes a bit for each context from `i` on, with `k` contexts to go.
unfoldable pub new_mask : ℤ → ℕ → ℕ → List Bool
new_mask proc_id i zero = []
new_mask proc_id i (suc k) = is_id proc_id i ∷ new_mask proc_id (suc i) k

-- The loop that writes the bit of each context from `i` on, with `k` contexts to go.
unfoldable pub fill_mask : ℤ → ℕ → ℕ → List Bool → Result (List Bool)
fill_mask proc_id i zero mask = ok mask
fill_mask proc_id i (suc k) mask =
    let rest = fill_mask proc_id (suc i) k (set mask i (is_id proc_id i)) in
    if ltb i (length mask) then rest else err no_processor

abbrev pub is_uncached : DirectoryEntryStatus → Bool
is_uncached uncached = true
is_uncached _ = false

abbrev pub is_shared : DirectoryEntryStatus → Bool
is_shared shared = true
is_shared _ = false

abbrev pub is_mesi : ProtocolType → Bool
is_mesi mesi = true
is_mesi msi = false

-- `processorMask[procID] = true`
abbrev pub set_bit : ℤ → List Bool → Result (List Bool)
set_bit (pos p) mask = if ltb p (length mask) then ok (set mask p true) else err no_processor
set_bit (negsuc p) mask = err no_processor

-- `updateEntry` for an address that has an entry.
abbrev pub update_existing :
    ProtocolType
    → ℕ
    → Table DirectoryEntry
    → ℕ
    → DirectoryEntry
    → DirectoryEntryStatus
    → ℤ
    → Result (Table DirectoryEntry)
update_existing protocol num_contexts directory addr entry shared proc_id =
    elim (set_bit proc_id entry.processor_mask) [
      | ok mask ↦ ok (assign directory addr (record { processor_mask = mask; status = shared }))
      | err e ↦ err e
    ]
update_existing protocol num_contexts directory addr entry exclusive proc_id =
    if is_mesi protocol && is_uncached entry.status
    then elim (fill_mask proc_id 0 num_contexts entry.processor_mask) [
      | ok mask ↦ ok (assign directory addr (record { processor_mask = mask; status = exclusive }))
      | err e ↦ err e
    ]
    else err assertion
update_existing protocol num_contexts directory addr entry modified proc_id =
    elim (fill_mask proc_id 0 num_contexts entry.processor_mask) [
      | ok mask ↦ ok (assign directory addr (record { processor_mask = mask; status = modified }))
      | err e ↦ err e
    ]
update_existing protocol num_contexts directory addr entry uncached proc_id =
    ok (erase directory addr)

unfoldable pub update_entry :
    ProtocolType
    → ℕ
    → Table DirectoryEntry
    → ℕ
    → DirectoryEntryStatus
    → ℤ
    → Result (Table DirectoryEntry)
unfolding new_mask fill_mask
update_entry protocol num_contexts directory addr status proc_id = elim (directory addr) [
  | none ↦ ok (
      assign directory addr
        (record { processor_mask = new_mask proc_id 0 num_contexts; status = status }))
  | some entry ↦ update_existing protocol num_contexts directory addr entry status proc_id
]

-- The entry that `updateEntry(addr, UNCACHED, -1)` makes for a new address.
abbrev pub new_entry : ℕ → DirectoryEntry
new_entry num_contexts = record {
  processor_mask = new_mask (negsuc 0) 0 num_contexts;
  status = uncached;
}

-- The directory after `lookUpEntry`, and the entry that it returns.
unfoldable pub look_up_entry : ℕ → Table DirectoryEntry → ℕ → Table DirectoryEntry × DirectoryEntry
unfolding new_mask
look_up_entry num_contexts directory addr = elim (directory addr) [
  | none ↦ (assign directory addr (new_entry num_contexts), new_entry num_contexts)
  | some entry ↦ (directory, entry)
]

-- `getOwners`
unfoldable pub get_owners : Table DirectoryEntry → ℕ → Result DirectoryEntry
get_owners directory addr = elim (directory addr) [ none ↦ err assertion | some entry ↦ ok entry ]
