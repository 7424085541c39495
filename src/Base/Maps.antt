-- ===== src/Base/Maps.antt =====
-- `std::map` with a number for its key. The source looks up, writes and erases single keys and
-- never walks over such a map, so a map is the function that finds a key's value.
use Prim.Native.Nat.{ℕ}
use mathlib.Core.Path.{◌≡◌}
use mathlib.Core.Option.{Option, none, some}
use mathlib.Core.Logic.{◌≢◌}
use native.Mathlib.Omega.{arith}
use syncd_sim.Base.Tests.{◌==◌, if◌then◌else◌}

abbrev pub Table {ℓ} : Type ℓ → Type ℓ
Table V = ℕ → Option V

module _ {ℓ} {V : Type ℓ} where
  abbrev pub empty_table : Table V
  empty_table k = none

  -- `m[k] = v`
  abbrev pub assign : Table V → ℕ → V → Table V
  assign m k v j = if k == j then some v else m j

  -- `m.insert(std::pair(k, v))`, which keeps an old value
  abbrev pub insert : Table V → ℕ → V → Table V
  insert m k v j = if k == j then elim (m j) [ none ↦ some v | some w ↦ some w ] else m j

  -- `m.erase(k)`
  abbrev pub erase : Table V → ℕ → Table V
  erase m k j = if k == j then none else m j

  -- `m[k]` read as a value, where a missing key reads as the default `d`
  abbrev pub get_or : Option V → V → V
  get_or none d = d
  get_or (some v) d = v

  pub assign_self : (m : Table V) (k : ℕ) (v : V) → assign m k v k ≡ some v
  assign_self m k v = ground arith

  pub assign_other : (m : Table V) (k j : ℕ) (v : V) → k ≢ j → assign m k v j ≡ m j
  assign_other m k j v ne = ground arith

  pub erase_self : (m : Table V) (k : ℕ) → erase m k k ≡ none
  erase_self m k = ground arith
