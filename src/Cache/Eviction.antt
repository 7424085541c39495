-- ===== src/Cache/Eviction.antt =====
-- Which line `updateLine` evicts, and the invariant of the cache.
use syncd_sim.Base.{
  ℕ, ◌+◌, ◌^◌, ◌<◌, ◌≡◌, inl, inr, refl, sym, ap, ◌∙◌, subst, List, Option, none, some, arith,
  length, get_elem?, All, All-get_elem?, Bool-cases, ◌==◌, some_injective,
}
use syncd_sim.Cache.{
  CacheLine, Cache, tag_of, set_idx, put_set, find_line, update_line, eviction_addr,
}
use syncd_sim.Cache.Geometry.{IsDefault, eviction_addr_line}
use syncd_sim.Cache.Search.{IsUsed, IsOldest}
use syncd_sim.Cache.Writes.{Written, over, into, instead_of, Written-length}
use syncd_sim.Cache.Rows.{Distinct, Written-counters, Written-Distinct, All-mono}
use syncd_sim.Cache.Lookup.{update_line-Written}

-- `l` is a line of the full row `ls`, which has no line for `tag`, and none was used less recently.
pub record IsVictim (tag : ℕ) (ls : List CacheLine) (l : CacheLine) : Type 0 where
  pub index : ℕ
  pub there : get_elem? ls index ≡ some l
  pub absent : find_line tag ls ≡ none
  pub full : All IsUsed ls
  pub oldest : All (IsOldest l.lru_counter) ls

Written-IsVictim :
    {tag counter : ℕ} {ls row : List CacheLine} {ev : Option ℕ} (v : ℕ)
    → Written tag counter ls row ev
    → ev ≡ some v
    → (l : CacheLine) × IsVictim tag ls l × (l.tag ≡ v)
Written-IsVictim v (over j l e h first) q = cc
Written-IsVictim v (into j l e u n) q = cc
Written-IsVictim v (instead_of j l e u old n) q =
    (l, record { index = j; there = e; absent = n; full = u; oldest = old }, some_injective q)

alerted :
    (c : Cache) (addr a : ℕ) (e : Option ℕ)
    → some a ≡ elim e [ none ↦ none | some v ↦ some (eviction_addr c addr v) ]
    → (v : ℕ) × (e ≡ some v) × (a ≡ eviction_addr c addr v)
alerted c addr a none h = cc
alerted c addr a (some v) h = (v, refl, some_injective h)

-- With the default geometry and tags below 2 ^ 53, an update that reports an eviction found its
-- row full, without the written line and with all lines valid, and the address that it reports
-- lies in the line, in the same set, of a member of the row that was used least recently.
pub update_line-IsVictim :
    (c c' : Cache) (addr a : ℕ)
    → IsDefault c
    → All (λ l. l.tag < 2 ^ 53) (c.sets (set_idx c addr))
    → update_line c addr ≡ some (c', some a)
    → (l : CacheLine) × IsVictim (tag_of c addr) (c.sets (set_idx c addr)) l
      × (tag_of c a ≡ l.tag)
      × (set_idx c a ≡ set_idx c addr)
update_line-IsVictim c c' addr a d tags h =
    let (row, e, w, q) = update_line-Written c addr (c', some a) h in
    let (v, gone, at) = alerted c addr a e (ap (λ (r : Cache × Option ℕ). r.1) q) in
    let (l, victim, same) = Written-IsVictim v w gone in
    let small =
      All-get_elem? (λ (k : CacheLine). k.tag < 2 ^ 53) _ victim.index l tags victim.there in
    let line = eviction_addr_line c d addr v (omega arith) in
    (l, victim, ap (tag_of c) at ∙ line.0 ∙ sym same, ap (set_idx c) at ∙ line.1)

-- All rows have `E` lines with distinct tags, and no counter has reached the global one.
pub record IsCache (c : Cache) : Type 0 where
  pub width : (k : ℕ) → length (c.sets k) ≡ c.e
  pub distinct : (k : ℕ) → Distinct (c.sets k)
  pub counters : (k : ℕ) → All (λ l. l.lru_counter < c.global_counter) (c.sets k)

IsCache-put_set :
    (c : Cache) (n : ℕ) (row : List CacheLine)
    → IsCache c
    → length row ≡ c.e
    → Distinct row
    → All (λ l. l.lru_counter < c.global_counter + 1) row
    → IsCache (record c { sets = put_set c.sets n row; global_counter = c.global_counter + 1 })
IsCache-put_set c n row i w d o = record {
  width = λ k. by_row (λ ls. length ls ≡ c.e) k w (i.width k);
  distinct = λ k. by_row Distinct k d (i.distinct k);
  counters = λ k.
      by_row (All (λ l. l.lru_counter < c.global_counter + 1)) k o (All-mono _ _ (i.counters k));
}
  where
    by_row :
        (P : List CacheLine → Type 0) (k : ℕ) → P row → P (c.sets k) → P (put_set c.sets n row k)
    by_row P k new old = elim (Bool-cases (n == k)) [ inl e ↦ rw e new | inr e ↦ rw e old ]

-- Updates keep the invariant of a cache: every row has E lines, no two valid lines of a row have
-- the same tag, and every counter of a line is below the global counter.
pub update_line-IsCache :
    (c c' : Cache) (addr : ℕ) (ev : Option ℕ)
    → IsCache c
    → update_line c addr ≡ some (c', ev)
    → IsCache c'
update_line-IsCache c c' addr ev i h =
    let (row, e, w, q) = update_line-Written c addr (c', ev) h in
    subst IsCache (sym (ap (λ (r : Cache × Option ℕ). r.0) q)) (
      IsCache-put_set c (set_idx c addr) row i (Written-length w ∙ i.width (set_idx c addr))
        (Written-Distinct w (i.distinct (set_idx c addr)))
        (Written-counters w (i.counters (set_idx c addr))))
