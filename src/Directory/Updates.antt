-- ===== src/Directory/Updates.antt =====
-- The directory as a map from lines to a status and a set of contexts, and what `updateEntry` does
-- to it.
use syncd_sim.Base.{
  ℕ, suc, zero, pos, ◌+◌, ◌<◌, ◌≡◌, ◌≢◌, refl, ap, sym, subst, ◌∙◌, Bool, true, false, ◌&&◌, ◌||◌,
  List, [], ◌∷◌, none, some, arith, ◌==◌, length, set, Bool-cases, inl, inr, Table, assign,
  assign_self, ==_iff, ◌⊎◌, Option-cases,
}
use native.Mathlib.Nat.{zero-add}
use syncd_sim.Base.Effects.{Fault, ok, err, ok_injective}
use syncd_sim.Types.{
  ProtocolType, DirectoryEntryStatus, uncached, shared, modified, exclusive, DirectoryEntry,
}
use syncd_sim.Directory.{new_mask, update_existing, update_entry, is_mesi, is_uncached}
use syncd_sim.Directory.Entries.{
  IsDirectory, update_existing-shared, update_existing-modified, update_existing-exclusive,
}

-- The bit of context `j`.
abbrev pub bit : List Bool → ℕ → Bool
bit [] j = false
bit (b ∷ bs) zero = b
bit (b ∷ bs) (suc j) = bit bs j

abbrev pub status_of : Table DirectoryEntry → ℕ → DirectoryEntryStatus
status_of directory addr = elim (directory addr) [ none ↦ uncached | some entry ↦ entry.status ]

abbrev pub holds : Table DirectoryEntry → ℕ → ℕ → Bool
holds directory addr j = elim (directory addr) [
  | none ↦ false
  | some entry ↦ bit entry.processor_mask j
]

-- Who holds a line after it is granted to `p`: `p` with the others if it is shared, else `p` alone.
abbrev pub granted : DirectoryEntryStatus → ℕ → Bool → ℕ → Bool
granted shared p old j = p == j || old
granted _ p old j = p == j

bit-new_mask : (p i k j : ℕ) → p < i + k → bit (new_mask (pos p) i k) j ≡ (p == i + j)
unfolding new_mask
bit-new_mask p i zero j h = ground arith
bit-new_mask p i (suc k) zero h = ground arith
bit-new_mask p i (suc k) (suc j) h = ground (arith, bit-new_mask p (suc i) k j)

bit-set :
    (mask : List Bool) (p j : ℕ)
    → p < length mask
    → bit (set mask p true) j ≡ (p == j || bit mask j)
bit-set [] p j h = absurd (omega arith)
bit-set (b ∷ bs) zero zero h = refl
bit-set (b ∷ bs) zero (suc j) h = ground arith
bit-set (b ∷ bs) (suc p) zero h = ground arith
bit-set (b ∷ bs) (suc p) (suc j) h = ground (arith, bit-set bs p j)

-- The entry that stands at `addr` afterwards.
pub record Granted (n : ℕ) (directory : Table DirectoryEntry) (addr p : ℕ)
    (status : DirectoryEntryStatus) (directory' : Table DirectoryEntry) : Type 0 where
  pub entry : DirectoryEntry
  pub after : directory' ≡ assign directory addr entry
  pub status_is : entry.status ≡ status
  pub bits : (j : ℕ) → bit entry.processor_mask j ≡ granted status p (holds directory addr j) j

module _ (protocol : ProtocolType) (n : ℕ) (directory : Table DirectoryEntry) (addr p : ℕ)
    (d : IsDirectory n directory) (lt : p < n) where
  bit_alone : (j : ℕ) → bit (new_mask (pos p) 0 n) j ≡ (p == j)
  bit_alone j = bit-new_mask p 0 n j (omega arith) ∙ ap (λ k. p == k) (zero-add j)

  granted_alone : (status : DirectoryEntryStatus) (j : ℕ) → granted status p false j ≡ (p == j)
  granted_alone shared j = ground arith
  granted_alone uncached j = refl
  granted_alone modified j = refl
  granted_alone exclusive j = refl

  new-Granted :
      (status : DirectoryEntryStatus)
      → directory addr ≡ none
      → Granted n directory addr p status (
          assign directory addr (record { processor_mask = new_mask (pos p) 0 n; status = status }))
  new-Granted status e = record {
    entry = _;
    after = refl;
    status_is = refl;
    bits = λ j.
        bit_alone j
        ∙ sym (granted_alone status j)
        ∙ ap (λ o. granted status p (elim o [ none ↦ false | some r ↦ bit r.processor_mask j ]) j)
            (sym e);
  }

  existing-Granted :
      (entry : DirectoryEntry) (status : DirectoryEntryStatus) (directory' : Table DirectoryEntry)
      → status ≢ uncached
      → directory addr ≡ some entry
      → update_existing protocol n directory addr entry status (pos p) ≡ ok directory'
      → Granted n directory addr p status directory'
  existing-Granted entry uncached directory' ne e h = absurd (ne refl)
  existing-Granted entry shared directory' ne e h =
      let w = (d addr entry e).width in
      record {
        entry = record { processor_mask = set entry.processor_mask p true; status = shared };
        after =
            ok_injective
              (sym h ∙ update_existing-shared protocol n directory addr p d lt entry (omega arith));
        status_is = refl;
        bits = λ j.
            bit-set entry.processor_mask p j (omega arith)
            ∙ ap (λ o. p == j || elim o [ none ↦ false | some r ↦ bit r.processor_mask j ]) (sym e);
      }
  existing-Granted entry modified directory' ne e h = record {
    entry = record { processor_mask = new_mask (pos p) 0 n; status = modified };
    after = ok_injective (
        sym h
        ∙ update_existing-modified protocol n directory addr p d lt entry (d addr entry e).width);
    status_is = refl;
    bits = bit_alone;
  }
  existing-Granted entry exclusive directory' ne e h =
      elim (Bool-cases (is_mesi protocol && is_uncached entry.status)) [
        | inl t ↦ record {
          entry = record { processor_mask = new_mask (pos p) 0 n; status = exclusive };
          after = ok_injective (
              sym h
              ∙ update_existing-exclusive protocol n directory addr p d lt entry
                  (d addr entry e).width t);
          status_is = refl;
          bits = bit_alone;
        }
        | inr t ↦ absurd (not_ok (sym (rw t at h)))
      ]
    where
      not_ok : {A : Type 0} {e : Fault} {a : A} → ok a ≢ err e
      not_ok h = cc

  entry-Granted :
      (status : DirectoryEntryStatus) (directory' : Table DirectoryEntry)
      → status ≢ uncached
      → update_entry protocol n directory addr status (pos p) ≡ ok directory'
      → Granted n directory addr p status directory'
  unfolding update_entry
  entry-Granted status directory' ne h = elim (Option-cases (directory addr)) [
    | inl e ↦
        subst (Granted n directory addr p status) (ok_injective (rw (e, update_entry) at h))
          (new-Granted status e)
    | inr (entry, e) ↦ existing-Granted entry status directory' ne e (rw (e, update_entry) at h)
  ]

-- Let the directory be consistent for `n` contexts, `p` be one of them, and `updateEntry` of a
-- line with a status other than UNCACHED succeed. Then the line has the status; `p` joins the
-- contexts that hold it if the status is SHARED, and is the only one if not; other lines keep
-- their entries.
pub update_entry-granted :
    (protocol : ProtocolType) (n : ℕ) (directory directory' : Table DirectoryEntry) (addr p : ℕ)
    (status : DirectoryEntryStatus)
    → IsDirectory n directory
    → p < n
    → status ≢ uncached
    → update_entry protocol n directory addr status (pos p) ≡ ok directory'
    → (status_of directory' addr ≡ status)
      × ((j : ℕ) → holds directory' addr j ≡ granted status p (holds directory addr j) j)
      × ((a : ℕ) → (addr ≡ a) ⊎ (directory' a ≡ directory a))
update_entry-granted protocol n directory directory' addr p status d lt ne h = (
  ap (λ o. elim o [ none ↦ uncached | some r ↦ r.status ]) there ∙ g.status_is,
  (λ j. ap (λ o. elim o [ none ↦ false | some r ↦ bit r.processor_mask j ]) there ∙ g.bits j),
  (λ a. elim (Bool-cases (addr == a)) [
    | inl e ↦ inl ((==_iff addr a).0 e)
    | inr e ↦ inr (ap (λ t. t a) g.after ∙ rw (e, assign) refl)
  ]),
)
  where
    g : Granted n directory addr p status directory'
    g = entry-Granted protocol n directory addr p d lt status directory' ne h

    there : directory' addr ≡ some g.entry
    there = ap (λ t. t addr) g.after ∙ assign_self directory addr g.entry
