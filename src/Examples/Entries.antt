-- ===== src/Examples/Entries.antt =====
-- Entries of a directory of two contexts.
use syncd_sim.Base.{
  ℕ, pos, ◌≡◌, ◌⊎◌, refl, true, [], ◌∷◌, arith, ◌==◌, ◌||◌, Table, assign, empty_table,
}
use syncd_sim.Types.{DirectoryEntry, shared, exclusive, modified, msi, mesi}
use syncd_sim.Directory.{update_entry, look_up_entry, new_mask}
use syncd_sim.Directory.Entries.{
  IsDirectory, IsEntry, Kept, update_entry-Kept, look_up_entry-IsDirectory,
}
use syncd_sim.Directory.Updates.{status_of, holds, update_entry-granted}
use syncd_sim.Examples.Data.{held_directory, read_directory}

pub empty-IsDirectory : IsDirectory 2 empty_table
empty-IsDirectory addr entry e = cc

-- The directories of the examples come from `updateEntry`.
pub held-IsDirectory : IsDirectory 2 held_directory
unfolding update_entry new_mask
held-IsDirectory =
    update_entry-Kept mesi 2 empty_table 512 1 empty-IsDirectory (omega arith) exclusive

pub read-IsDirectory : IsDirectory 2 read_directory
unfolding update_entry new_mask
read-IsDirectory = update_entry-Kept msi 2 empty_table 512 0 empty-IsDirectory (omega arith) shared

update_entry-Kept_example : Kept 2 (update_entry msi 2 held_directory 512 modified (pos 0))
update_entry-Kept_example =
    update_entry-Kept msi 2 held_directory 512 0 held-IsDirectory (omega arith) modified

look_up_entry-IsDirectory_example :
    IsDirectory 2 (look_up_entry 2 held_directory 1024).0
    × IsEntry 2 (look_up_entry 2 held_directory 1024).1
look_up_entry-IsDirectory_example = look_up_entry-IsDirectory 2 held_directory 1024 held-IsDirectory

abbrev both_directory : Table DirectoryEntry
both_directory =
    assign read_directory 512 (record { processor_mask = true ∷ true ∷ []; status = shared })

update_entry-granted_example :
    (status_of both_directory 512 ≡ shared)
    × ((j : ℕ) → holds both_directory 512 j ≡ (1 == j || holds read_directory 512 j))
    × ((a : ℕ) → (512 ≡ a) ⊎ (both_directory a ≡ read_directory a))
unfolding update_entry
update_entry-granted_example =
    update_entry-granted msi 2 read_directory both_directory 512 1 shared read-IsDirectory
      (omega arith) (λ e. cc) refl
