-- ===== src/Cache/Lookup.antt =====
-- `updateLine`, `getLine` and the other operations on the whole cache.
use syncd_sim.Base.{
  ℕ, ◌^◌, ◌<◌, ◌≡◌, ◌≢◌, inl, inr, sym, ap, ◌∙◌, List, [], Option, none, some, arith, All,
  Bool-cases, Option-cases, some_injective, ◌==◌, ==_iff, ==_refl,
}
use syncd_sim.Types.{int_max}
use syncd_sim.Cache.{
  CacheLine, Cache, tag_of, set_idx, put_set, find_line, get_line, update_set, update_line, updated,
  eviction_addr, written,
}
use syncd_sim.Cache.Geometry.{IsDefault, eviction_addr_line, tag_of_default}
use syncd_sim.Cache.Writes.{
  Written, update_set-Written, update_set_total, Written-find_self, Written-find_other,
}

module _ (c : Cache) (addr : ℕ) where
  abbrev row_of : List CacheLine
  row_of = c.sets (set_idx c addr)

  -- A successful `updateLine` wrote its row in one of the three ways.
  pub update_line-Written :
      (r : Cache × Option ℕ)
      → update_line c addr ≡ some r
      → (row : List CacheLine) × (ev : Option ℕ) × Written
          (tag_of c addr)
          c.global_counter
          row_of
          row
          ev
        × (r ≡ updated c addr (row, ev))
  unfolding update_line
  update_line-Written r h =
      elim (Option-cases (update_set (tag_of c addr) c.global_counter row_of)) [
        | inl e ↦ ground (arith, e)
        | inr (p, e) ↦ (
          p.0,
          p.1,
          update_set-Written _ _ _ p.0 p.1 e,
          sym (
              some_injective
                (ap (λ o. elim o [ none ↦ none | some w ↦ some (updated c addr w) ]) (sym e) ∙ h)),
        )
      ]

  -- An update succeeds on every row that is not empty and whose counters are below INT_MAX: it
  -- never writes at index -1.
  pub update_line_total :
      row_of ≢ []
      → All (λ l. l.lru_counter < int_max) row_of
      → (r : Cache × Option ℕ) × (update_line c addr ≡ some r)
  unfolding update_line
  update_line_total ne below =
      elim (Option-cases (update_set (tag_of c addr) c.global_counter row_of)) [
        | inl e ↦ absurd (update_set_total _ _ row_of ne below e)
        | inr (p, e) ↦ (updated c addr p, rw (e, update_line))
      ]

  -- After an update of a line the line is found, valid, dirty, with its tag and the global counter
  -- of before.
  pub get_line-update_line :
      (c' : Cache) (ev : Option ℕ)
      → update_line c addr ≡ some (c', ev)
      → get_line c' addr ≡ some (written (tag_of c addr) c.global_counter)
  unfolding get_line
  get_line-update_line c' ev h =
      let (row, e, w, q) = update_line-Written (c', ev) h in
      ap (λ (r : Cache × Option ℕ). find_line (tag_of r.0 addr) (r.0.sets (set_idx r.0 addr))) q
      ∙ rw (==_refl (set_idx c addr)) (Written-find_self w)

  -- The address lies in the line of `addr`.
  abbrev pub SameLine : ℕ → ℕ → Type 0
  SameLine a b = (tag_of c a ≡ tag_of c b) × (set_idx c a ≡ set_idx c b)

  -- The tag of an address that is neither written nor reported as evicted was not evicted.
  evicted_other :
      (row : List CacheLine) (e ev : Option ℕ) (c' : Cache) (other : ℕ)
      → IsDefault c
      → other < 2 ^ 64
      → (c', ev) ≡ updated c addr (row, e)
      → set_idx c addr ≡ set_idx c other
      → ((a : ℕ) → ev ≡ some a → ¬ SameLine a other)
      → e ≢ some (tag_of c other)
  evicted_other row e ev c' other d fits q same kept gone =
      kept (eviction_addr c addr v)
        (ap (λ (r : Cache × Option ℕ). r.1) q
          ∙ ap (λ o. elim o [ none ↦ none | some u ↦ some (eviction_addr c addr u) ]) gone)
        (line.0, line.1 ∙ same)
    where
      v : ℕ
      v = tag_of c other

      line :
          (tag_of c (eviction_addr c addr v) ≡ v)
          × (set_idx c (eviction_addr c addr v) ≡ set_idx c addr)
      line = eviction_addr_line c d addr v (omega (arith, tag_of_default c d other))

  -- With the default geometry, every 64-bit address in a line that an update neither writes nor
  -- reports as evicted is looked up with the same result as before.
  pub get_line-update_line_other :
      (c' : Cache) (ev : Option ℕ) (other : ℕ)
      → IsDefault c
      → other < 2 ^ 64
      → update_line c addr ≡ some (c', ev)
      → ¬ SameLine addr other
      → ((a : ℕ) → ev ≡ some a → ¬ SameLine a other)
      → get_line c' other ≡ get_line c other
  unfolding get_line
  get_line-update_line_other c' ev other d fits h apart kept =
      let (row, e, w, q) = update_line-Written (c', ev) h in
      ap (λ (r : Cache × Option ℕ). find_line (tag_of r.0 other) (r.0.sets (set_idx r.0 other))) q
      ∙ elim (Bool-cases (set_idx c addr == set_idx c other)) [
        | inr ne ↦ rw (ne, put_set)
        | inl eq ↦
            let same = (==_iff (set_idx c addr) (set_idx c other)).0 eq in
            rw (eq, put_set)
              (Written-find_other (tag_of c other) w (λ t. apart (sym t, same))
                  (evicted_other row e ev c' other d fits q same kept)
                ∙ ap (λ n. find_line (tag_of c other) (c.sets n)) same)
      ]
