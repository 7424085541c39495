-- ===== src/Safety/Lines.antt =====
-- The tags in a cache and the addresses of eviction alerts, for 48-bit addresses.
use syncd_sim.Base.{
  ℕ, ◌+◌, ◌^◌, ◌<◌, ◌≡◌, refl, sym, ap, subst, inl, inr, List, Option, none, some, arith, All,
  All-set, All-get_elem?, Bool-cases, ◌==◌, some_injective,
}
use syncd_sim.Cache.{
  CacheLine, Cache, set_idx, eviction_addr, get_line, read_line, invalidate_line, fetch_line,
  update_line, written,
}
use syncd_sim.Cache.Geometry.{IsDefault, tag_of_default, eviction_addr_default}
use syncd_sim.Cache.Search.{IsUsed}
use syncd_sim.Cache.Writes.{Written, over, into, instead_of}
use syncd_sim.Cache.Lookup.{update_line-Written}
use syncd_sim.Safety.{IsTagged}

-- What the invariant says of a cache.
pub record IsCacheOf48 (c : Cache) : Type 0 where
  pub geometry : IsDefault c
  pub tags : (k : ℕ) → All IsTagged (c.sets k)

Written-IsTagged :
    {tag counter : ℕ} {ls row : List CacheLine} {ev : Option ℕ}
    → Written tag counter ls row ev
    → All IsTagged ls
    → tag < 2 ^ 37
    → All IsTagged row
Written-IsTagged {tag} {counter} {ls} (over j l e h first) a t =
    All-set IsTagged ls j (written tag counter) a (λ _. t)
Written-IsTagged {tag} {counter} {ls} (into j l e u n) a t =
    All-set IsTagged ls j (written tag counter) a (λ _. t)
Written-IsTagged {tag} {counter} {ls} (instead_of j l e u old n) a t =
    All-set IsTagged ls j (written tag counter) a (λ _. t)

Written-evicted_lt :
    {tag counter : ℕ} {ls row : List CacheLine} {ev : Option ℕ} (v : ℕ)
    → Written tag counter ls row ev
    → All IsTagged ls
    → ev ≡ some v
    → v < 2 ^ 37
Written-evicted_lt v (over j l e h first) a q = cc
Written-evicted_lt v (into j l e u n) a q = cc
Written-evicted_lt {tag} {counter} {ls} v (instead_of j l e u old n) a q =
    subst (λ n. n < 2 ^ 37) (some_injective q)
      (All-get_elem? IsTagged ls j l a e (All-get_elem? IsUsed ls j l u e))

looked_up-IsCacheOf48 :
    {A : Type 0} (o : Option A) (d c' : Cache)
    → elim o [ none ↦ none | some l ↦ some d ] ≡ some c'
    → IsCacheOf48 d
    → IsCacheOf48 c'
looked_up-IsCacheOf48 none d c' h i = cc
looked_up-IsCacheOf48 (some l) d c' h i = subst IsCacheOf48 (some_injective h) i

module _ (c c' : Cache) (addr : ℕ) (i : IsCacheOf48 c) where
  counted : IsCacheOf48 (record c { global_counter = c.global_counter + 1 })
  counted = record {
    geometry = record {
      set_bits = i.geometry.set_bits;
      block_bits = i.geometry.block_bits;
      tag_bits = i.geometry.tag_bits;
    };
    tags = i.tags;
  }

  pub read_line-IsCacheOf48 : read_line c addr ≡ some c' → IsCacheOf48 c'
  unfolding read_line
  read_line-IsCacheOf48 h = looked_up-IsCacheOf48 (get_line c addr) _ c' h counted

  pub fetch_line-IsCacheOf48 : fetch_line c addr ≡ some c' → IsCacheOf48 c'
  unfolding fetch_line
  fetch_line-IsCacheOf48 h = looked_up-IsCacheOf48 (get_line c addr) _ c' h counted

  pub invalidate_line-IsCacheOf48 : invalidate_line c addr ≡ some c' → IsCacheOf48 c'
  unfolding invalidate_line
  invalidate_line-IsCacheOf48 h = looked_up-IsCacheOf48 (get_line c addr) c c' h i

  pub update_line-IsCacheOf48 :
      (ev : Option ℕ) → addr < 2 ^ 48 → update_line c addr ≡ some (c', ev) → IsCacheOf48 c'
  update_line-IsCacheOf48 ev h e =
      let (row, evicted, w, q) = update_line-Written c addr (c', ev) e in
      let fits =
        Written-IsTagged w (i.tags (set_idx c addr))
          (omega (arith, tag_of_default c i.geometry addr)) in
      subst IsCacheOf48 (sym (ap (λ (r : Cache × Option ℕ). r.0) q)) (record {
        geometry = record {
          set_bits = i.geometry.set_bits;
          block_bits = i.geometry.block_bits;
          tag_bits = i.geometry.tag_bits;
        };
        tags = λ k. elim (Bool-cases (set_idx c addr == k)) [
          | inl same ↦ rw same fits
          | inr other ↦ rw other (i.tags k)
        ];
      })

  -- The address of an eviction alert has 48 bits.
  pub update_line-evicted_lt :
      (a : ℕ) → addr < 2 ^ 48 → update_line c addr ≡ some (c', some a) → a < 2 ^ 48
  update_line-evicted_lt a h e =
      let (row, evicted, w, q) = update_line-Written c addr (c', some a) e in
      alert evicted (λ v. Written-evicted_lt v w (i.tags (set_idx c addr)))
        (ap (λ (r : Cache × Option ℕ). r.1) q)
    where
      alert :
          (o : Option ℕ)
          → ((v : ℕ) → o ≡ some v → v < 2 ^ 37)
          → some a ≡ elim o [ none ↦ none | some v ↦ some (eviction_addr c addr v) ]
          → a < 2 ^ 48
      alert none k p = cc
      alert (some v) k p = omega (
        arith,
        some_injective p,
        k v refl,
        eviction_addr_default c i.geometry addr v (omega (arith, k v refl)),
      )
