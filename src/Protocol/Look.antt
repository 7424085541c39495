-- ===== src/Protocol/Look.antt =====
-- Look-ups and records of a home node.
use syncd_sim.Base.{
  ℕ, zero, suc, pos, negsuc, ◌≡◌, refl, ap, sym, ◌∙◌, subst, false, some, Table, ◌==◌, ==_refl,
  Option-cases, inl, inr, assign, assign_self, Bool-cases, ==_iff, ◌⊎◌, some_injective,
}
use syncd_sim.Base.Effects.{ok, err}
use syncd_sim.Types.{DirectoryEntry, DirectoryEntryStatus}
use syncd_sim.Directory.{update_entry, look_up_entry, new_entry, new_mask}
use syncd_sim.Directory.Entries.{IsDirectory, look_up_entry-IsDirectory}
use syncd_sim.Directory.Updates.{bit, status_of, holds}
use syncd_sim.Context.{Config, World, put_context, lookup_directory_entry, update_directory_entry}
use syncd_sim.Base.Effects.Steps.{Runs}
use syncd_sim.Protocol.Send.{put_context-same}

-- No message is sent, and the handlers stay.
pub record Quiet (w w' : World) : Type 0 where
  pub incoming : (j : ℕ) → (w' j).incoming_msg_queue ≡ (w j).incoming_msg_queue
  pub handler : (j : ℕ) → (w' j).handler ≡ (w j).handler

put_directory-Quiet :
    (w : World) (me : ℕ) (directory : Table DirectoryEntry)
    → Quiet w (put_context w me (record (w me) { directory = directory }))
put_directory-Quiet w me directory = record {
  incoming = λ j. put_context-same (λ c. c.incoming_msg_queue) w me j _ refl;
  handler = λ j. put_context-same (λ c. c.handler) w me j _ refl;
}

put_directory-directory :
    (w : World) (me : ℕ) (directory : Table DirectoryEntry)
    → (put_context w me (record (w me) { directory = directory }) me).directory ≡ directory
put_directory-directory w me directory = rw (==_refl me, put_context) refl

bit-new_mask_none : (m i k j : ℕ) → bit (new_mask (negsuc m) i k) j ≡ false
unfolding new_mask
bit-new_mask_none m i zero j = refl
bit-new_mask_none m i (suc k) zero = refl
bit-new_mask_none m i (suc k) (suc j) = bit-new_mask_none m (suc i) k j

-- What a look-up leaves of a directory, and the entry that it finds.
pub record LooksUp (n addr : ℕ) (d d' : Table DirectoryEntry) (entry : DirectoryEntry)
    : Type 0 where
  pub consistent : IsDirectory n d'
  pub there : d' addr ≡ some entry
  pub status_is : entry.status ≡ status_of d addr
  pub bits : (j : ℕ) → bit entry.processor_mask j ≡ holds d addr j
  pub others : (a : ℕ) → (addr ≡ a) ⊎ (d' a ≡ d a)
  pub same : (old : DirectoryEntry) → d addr ≡ some old → entry ≡ old

assign_or :
    (d : Table DirectoryEntry) (addr a : ℕ) (entry : DirectoryEntry)
    → (addr ≡ a) ⊎ (assign d addr entry a ≡ d a)
assign_or d addr a entry = elim (Bool-cases (addr == a)) [
  | inl e ↦ inl ((==_iff addr a).0 e)
  | inr e ↦ inr (rw (e, assign) refl)
]

look_up_entry-LooksUp :
    (n addr : ℕ) (d : Table DirectoryEntry)
    → IsDirectory n d
    → LooksUp n addr d (look_up_entry n d addr).0 (look_up_entry n d addr).1
unfolding look_up_entry
look_up_entry-LooksUp n addr d i = elim (Option-cases (d addr)) [
  | inl e ↦ record {
    consistent = (look_up_entry-IsDirectory n d addr i).0;
    there = rw (e, look_up_entry) (assign_self d addr (new_entry n));
    status_is = rw (e, status_of, look_up_entry) refl;
    bits = λ j. rw (e, holds, look_up_entry) (bit-new_mask_none 0 0 n j);
    others = λ a. rw (e, look_up_entry) (assign_or d addr a (new_entry n));
    same = λ old f. cc;
  }
  | inr (entry, e) ↦ record {
    consistent = (look_up_entry-IsDirectory n d addr i).0;
    there = rw (e, look_up_entry) e;
    status_is = rw (e, status_of, look_up_entry) refl;
    bits = λ j. rw (e, holds, look_up_entry) refl;
    others = λ a. inr (rw (e, look_up_entry) refl);
    same = λ old f. rw (e, look_up_entry) (some_injective (sym e ∙ f));
  }
]

module _ (cfg : Config) (me : ℕ) where
  pub lookup_directory_entry-Runs :
      (addr : ℕ) (w : World)
      → IsDirectory cfg.num_contexts (w me).directory
      → (w' : World) × (entry : DirectoryEntry) × Runs
          (lookup_directory_entry cfg me addr)
          w
          entry
          w'
        × LooksUp cfg.num_contexts addr (w me).directory (w' me).directory entry
        × Quiet w w'
  unfolding lookup_directory_entry
  lookup_directory_entry-Runs addr w i =
      let (d, entry) = look_up_entry cfg.num_contexts (w me).directory addr in
      (
        put_context w me (record (w me) { directory = d }),
        entry,
        record { result = refl },
        subst (λ t. LooksUp cfg.num_contexts addr (w me).directory t entry)
            (sym (put_directory-directory w me d))
            (look_up_entry-LooksUp cfg.num_contexts addr (w me).directory i),
        put_directory-Quiet w me d,
      )

  pub update_directory_entry-Runs :
      (addr p : ℕ) (status : DirectoryEntryStatus) (w : World) (d : Table DirectoryEntry)
      → update_entry cfg.protocol cfg.num_contexts (w me).directory addr status (pos p) ≡ ok d
      → (w' : World) × Runs (update_directory_entry cfg me addr status (pos p)) w tt w'
        × ((w' me).directory ≡ d)
        × Quiet w w'
  unfolding update_directory_entry
  update_directory_entry-Runs addr p status w d e = (
    put_context w me (record (w me) { directory = d }),
    record {
      result =
          ap
            (λ r. elim r [
              | ok directory ↦ ok (tt, put_context w me (record (w me) { directory = directory }))
              | err f ↦ err f
            ])
            e;
    },
    put_directory-directory w me d,
    put_directory-Quiet w me d,
  )
