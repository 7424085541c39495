-- ===== src/Directory/Entries.antt =====
-- The invariant of the directory under `updateEntry` and `lookUpEntry`.
use syncd_sim.Base.{
  ℕ, pos, negsuc, ◌<◌, ◌≡◌, ◌≢◌, refl, sym, subst, ◌∙◌, Bool, true, List, [], ◌∷◌, some, arith,
  ◌==◌, length, length-set, set, Bool-cases, inl, inr, Table, assign, erase, lt→ltb, some_injective,
  Option-cases, ◌&&◌,
}
use syncd_sim.Base.Effects.{Result, ok, err, assertion}
use syncd_sim.Types.{
  ProtocolType, DirectoryEntryStatus, uncached, shared, modified, exclusive, DirectoryEntry,
}
use syncd_sim.Directory.{
  new_mask, is_mesi, is_uncached, update_existing, update_entry, new_entry, look_up_entry,
}
use syncd_sim.Directory.Masks.{
  holders, length-new_mask, fill_mask_lem, holders-new_mask, holders-set,
}

-- A shared line has a holder, and a modified or exclusive one has exactly one.
abbrev pub Held : DirectoryEntryStatus → List ℕ → Type 0
Held uncached hs = Unit
Held shared hs = hs ≢ []
Held modified hs = (p : ℕ) × (hs ≡ p ∷ [])
Held exclusive hs = (p : ℕ) × (hs ≡ p ∷ [])

pub record IsEntry (n : ℕ) (entry : DirectoryEntry) : Type 0 where
  pub width : length entry.processor_mask ≡ n
  pub held : Held entry.status (holders 0 entry.processor_mask)

abbrev pub IsDirectory : ℕ → Table DirectoryEntry → Type 0
IsDirectory n directory =
    (addr : ℕ) (entry : DirectoryEntry) → directory addr ≡ some entry → IsEntry n entry

assign-IsDirectory :
    (n : ℕ) (directory : Table DirectoryEntry) (addr : ℕ) (entry : DirectoryEntry)
    → IsDirectory n directory
    → IsEntry n entry
    → IsDirectory n (assign directory addr entry)
assign-IsDirectory n directory addr entry d new a e h = elim (Bool-cases (addr == a)) [
  | inl same ↦ subst (IsEntry n) (some_injective (rw same at h)) new
  | inr other ↦ d a e (rw other at h)
]

erase-IsDirectory :
    (n : ℕ) (directory : Table DirectoryEntry) (addr : ℕ)
    → IsDirectory n directory
    → IsDirectory n (erase directory addr)
erase-IsDirectory n directory addr d a e h = elim (Bool-cases (addr == a)) [
  | inl same ↦ ground arith
  | inr other ↦ d a e (rw other at h)
]

-- A mask with the one bit of `p` fits every status.
one_bit :
    (n p : ℕ) (status : DirectoryEntryStatus) (mask : List Bool)
    → length mask ≡ n
    → holders 0 mask ≡ p ∷ []
    → IsEntry n (record { processor_mask = mask; status = status })
one_bit n p uncached mask w h = record { width = w; held = tt }
one_bit n p shared mask w h = record { width = w; held = λ e. cc }
one_bit n p modified mask w h = record { width = w; held = (p, h) }
one_bit n p exclusive mask w h = record { width = w; held = (p, h) }

new-IsEntry :
    (n p : ℕ) (status : DirectoryEntryStatus)
    → p < n
    → IsEntry n (record { processor_mask = new_mask (pos p) 0 n; status = status })
new-IsEntry n p status lt =
    one_bit n p status (new_mask (pos p) 0 n) (length-new_mask (pos p) 0 n)
      (holders-new_mask p 0 n (omega arith) (omega arith))

abbrev pub Kept : ℕ → Result (Table DirectoryEntry) → Type 0
Kept n (ok directory) = IsDirectory n directory
Kept n (err e) = e ≡ assertion

module _ (protocol : ProtocolType) (n : ℕ) (directory : Table DirectoryEntry) (addr p : ℕ)
    (d : IsDirectory n directory) (lt : p < n) where
  pub update_existing-shared :
      (entry : DirectoryEntry)
      → p < length entry.processor_mask
      → update_existing protocol n directory addr entry shared (pos p)
        ≡ ok (
            assign directory addr
              (record { processor_mask = set entry.processor_mask p true; status = shared }))
  update_existing-shared entry h = rw (lt→ltb p (length entry.processor_mask) h, update_existing)

  pub update_existing-modified :
      (entry : DirectoryEntry)
      → length entry.processor_mask ≡ n
      → update_existing protocol n directory addr entry modified (pos p)
        ≡ ok (
            assign directory addr
              (record { processor_mask = new_mask (pos p) 0 n; status = modified }))
  update_existing-modified entry w =
      rw (fill_mask_lem (pos p) n entry.processor_mask w, update_existing) refl

  pub update_existing-exclusive :
      (entry : DirectoryEntry)
      → length entry.processor_mask ≡ n
      → (is_mesi protocol && is_uncached entry.status) ≡ true
      → update_existing protocol n directory addr entry exclusive (pos p)
        ≡ ok (
            assign directory addr
              (record { processor_mask = new_mask (pos p) 0 n; status = exclusive }))
  update_existing-exclusive entry w t =
      rw (t, fill_mask_lem (pos p) n entry.processor_mask w, update_existing) refl

  update_existing-Kept :
      (entry : DirectoryEntry) (status : DirectoryEntryStatus)
      → IsEntry n entry
      → Kept n (update_existing protocol n directory addr entry status (pos p))
  update_existing-Kept entry uncached v = erase-IsDirectory n directory addr d
  update_existing-Kept entry shared v =
      subst (Kept n) (sym (update_existing-shared entry (omega (arith, v.width)))) (
        assign-IsDirectory n directory addr _ d (record {
          width = length-set entry.processor_mask p true ∙ v.width;
          held = holders-set 0 p entry.processor_mask (omega (arith, v.width));
        }))
  update_existing-Kept entry modified v =
      subst (Kept n) (sym (update_existing-modified entry v.width))
        (assign-IsDirectory n directory addr _ d (new-IsEntry n p modified lt))
  update_existing-Kept entry exclusive v =
      elim (Bool-cases (is_mesi protocol && is_uncached entry.status)) [
        | inl e ↦
            subst (Kept n) (sym (update_existing-exclusive entry v.width e))
              (assign-IsDirectory n directory addr _ d (new-IsEntry n p exclusive lt))
        | inr e ↦ rw (e, Kept, update_existing) refl
      ]

  -- On a consistent directory `updateEntry` for a context leaves a consistent directory (masks
  -- have a bit for each context, a SHARED line has a holder, a MODIFIED or EXCLUSIVE line has
  -- exactly one), or stops at an assertion and at no access out of bounds.
  pub update_entry-Kept :
      (status : DirectoryEntryStatus)
      → Kept n (update_entry protocol n directory addr status (pos p))
  unfolding update_entry
  update_entry-Kept status = elim (Option-cases (directory addr)) [
    | inl e ↦
        rw (e, Kept, update_entry)
          (assign-IsDirectory n directory addr _ d (new-IsEntry n p status lt))
    | inr (entry, e) ↦
        rw (e, update_entry, Kept) (update_existing-Kept entry status (d addr entry e))
  ]

-- A look-up in a consistent directory leaves a consistent directory and returns a well-formed
-- entry.
pub look_up_entry-IsDirectory :
    (n : ℕ) (directory : Table DirectoryEntry) (addr : ℕ)
    → IsDirectory n directory
    → IsDirectory n (look_up_entry n directory addr).0
      × IsEntry n (look_up_entry n directory addr).1
unfolding look_up_entry
look_up_entry-IsDirectory n directory addr d = elim (Option-cases (directory addr)) [
  | inl e ↦ rw (e, look_up_entry) (assign-IsDirectory n directory addr _ d (blank n), blank n)
  | inr (entry, e) ↦ rw (e, look_up_entry) (d, d addr entry e)
]
  where
    blank : (n : ℕ) → IsEntry n (new_entry n)
    blank n = record { width = length-new_mask (negsuc 0) 0 n; held = tt }
