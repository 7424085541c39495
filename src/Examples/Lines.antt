-- ===== src/Examples/Lines.antt =====
-- A cache whose rows are full.
use syncd_sim.Base.{
  ℕ, ◌^◌, ◌<◌, ◌≡◌, refl, inl, All, [], ◌∷◌, Option, some, arith, some_injective, true,
}
use syncd_sim.Types.{int_max}
use syncd_sim.Cache.{
  CacheLine, Cache, set_idx, tag_of, get_line, read_line, invalidate_line, update_set, update_line,
  scan, updated, written, find_line, eviction_addr,
}
use syncd_sim.Cache.Geometry.{IsDefault, eviction_addr_line}
use syncd_sim.Cache.Lookup.{update_line_total, get_line-update_line, get_line-update_line_other}
use syncd_sim.Cache.Eviction.{IsVictim, IsCache, update_line-IsVictim, update_line-IsCache}
use syncd_sim.Cache.Copies.{invalidate_line-get_line, read_line-get_line}
use syncd_sim.Examples.Data.{full_row, full_cache, used_line}

-- The line of 20480 takes the place of that of 4096.
abbrev after_update : Cache
after_update =
    (updated full_cache 20480
      (used_line 1 3 ∷ written 10 5 ∷ used_line 3 2 ∷ used_line 4 4 ∷ [], some 2)).0

full_cache-update : update_line full_cache 20480 ≡ some (after_update, some 4096)
unfolding update_line update_set scan
full_cache-update = refl

full_cache-IsDefault : IsDefault full_cache
full_cache-IsDefault = record { set_bits = refl; block_bits = refl; tag_bits = refl }

counters_lt : (n : ℕ) → 4 < n → All (λ l. l.lru_counter < n) full_row
counters_lt n h = (omega arith, (omega arith, (omega arith, (omega arith, tt))))

tags_lt : All (λ l. l.tag < 2 ^ 53) full_row
tags_lt = (omega arith, (omega arith, (omega arith, (omega arith, tt))))

full_cache-IsCache : IsCache full_cache
unfolding find_line
full_cache-IsCache = record {
  width = λ k. refl;
  distinct = λ k. ((λ _. refl), ((λ _. refl), ((λ _. refl), ((λ _. refl), tt))));
  counters = λ k. counters_lt 5 (omega arith);
}

get_line-update_line_example : get_line after_update 20480 ≡ some (written 10 5)
get_line-update_line_example =
    get_line-update_line full_cache 20480 after_update (some 4096) full_cache-update

get_line-update_line_other_example : get_line after_update 6144 ≡ get_line full_cache 6144
get_line-update_line_other_example =
    get_line-update_line_other full_cache 20480 after_update (some 4096) 6144 full_cache-IsDefault
      (omega arith) full_cache-update (λ e. omega (arith, e.0))
      (λ a h e. omega (arith, some_injective h, e.0))

update_line_total_example : (r : Cache × Option ℕ) × (update_line full_cache 20480 ≡ some r)
update_line_total_example =
    update_line_total full_cache 20480 (λ e. cc) (counters_lt int_max (omega arith))

update_line-IsVictim_example :
    (l : CacheLine) × IsVictim 10 full_row l
    × (tag_of full_cache 4096 ≡ l.tag)
    × (set_idx full_cache 4096 ≡ 0)
update_line-IsVictim_example =
    update_line-IsVictim full_cache after_update 20480 4096 full_cache-IsDefault tags_lt
      full_cache-update

update_line-IsCache_example : IsCache after_update
update_line-IsCache_example =
    update_line-IsCache full_cache after_update 20480 (some 4096) full_cache-IsCache
      full_cache-update

eviction_addr_line_example :
    (tag_of full_cache (eviction_addr full_cache 20992 2) ≡ 2)
    × (set_idx full_cache (eviction_addr full_cache 20992 2) ≡ set_idx full_cache 20992)
eviction_addr_line_example =
    eviction_addr_line full_cache full_cache-IsDefault 20992 2 (omega arith)

invalidate_line-get_line_example :
    (l : CacheLine) × (get_line full_cache 6144 ≡ some l) × (l.valid ≡ true) × (l.tag ≡ 3)
unfolding invalidate_line get_line find_line
invalidate_line-get_line_example = invalidate_line-get_line full_cache full_cache 6144 refl

read_line-get_line_example :
    get_line (record full_cache { global_counter = 6 }) 6144 ≡ get_line full_cache 6144
unfolding read_line get_line find_line
read_line-get_line_example =
    read_line-get_line full_cache (record full_cache { global_counter = 6 }) 6144 6144 (inl refl)
