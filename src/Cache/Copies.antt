-- ===== src/Cache/Copies.antt =====
-- `readLine`, `invalidateLine` and `fetchLine`, which write to a copy of the line that they look
-- up.
use syncd_sim.Base.{
  ℕ, ◌+◌, ◌⊎◌, ◌≡◌, refl, sym, ap, ◌∙◌, inl, inr, true, List, [], ◌∷◌, Option, none, some, arith,
  Bool-cases, some_injective,
}
use syncd_sim.Cache.{
  CacheLine, Cache, tag_of, set_idx, is_hit, find_line, get_line, read_line, invalidate_line,
  fetch_line,
}

find_line-valid :
    (tag : ℕ) (ls : List CacheLine) (l : CacheLine)
    → find_line tag ls ≡ some l
    → (l.valid ≡ true) × (l.tag ≡ tag)
unfolding find_line
find_line-valid tag [] l h = cc
find_line-valid tag (k ∷ ls) l h = elim (Bool-cases (is_hit tag k)) [
  | inl e ↦ ground arith
  | inr e ↦ find_line-valid tag ls l (rw e at h)
]

looked_up :
    (o : Option CacheLine) (d c' : Cache)
    → elim o [ none ↦ none | some l ↦ some d ] ≡ some c'
    → (l : CacheLine) × (o ≡ some l) × (d ≡ c')
looked_up none d c' h = cc
looked_up (some l) d c' h = (l, refl, some_injective h)

-- After a successful `invalidateLine` the line of the address is still found, valid.
pub invalidate_line-get_line :
    (c c' : Cache) (addr : ℕ)
    → invalidate_line c addr ≡ some c'
    → (l : CacheLine) × (get_line c' addr ≡ some l) × (l.valid ≡ true) × (l.tag ≡ tag_of c' addr)
unfolding invalidate_line get_line
invalidate_line-get_line c c' addr h =
    let (l, e, q) = looked_up (get_line c addr) c c' h in
    let (v, t) = find_line-valid (tag_of c addr) (c.sets (set_idx c addr)) l e in
    (l, ap (λ x. get_line x addr) (sym q) ∙ e, v, t ∙ ap (λ x. tag_of x addr) q)

-- A successful `readLine` or `fetchLine` leaves the look-up of every address as it was, the
-- counter and the dirty bit of the line included.
pub read_line-get_line :
    (c c' : Cache) (addr a : ℕ)
    → (read_line c addr ≡ some c') ⊎ (fetch_line c addr ≡ some c')
    → get_line c' a ≡ get_line c a
unfolding read_line fetch_line
read_line-get_line c c' addr a (inl h) =
    let (l, e, q) =
      looked_up (get_line c addr) (record c { global_counter = c.global_counter + 1 }) c' h in
    ap (λ x. get_line x a) (sym q)
read_line-get_line c c' addr a (inr h) =
    let (l, e, q) =
      looked_up (get_line c addr) (record c { global_counter = c.global_counter + 1 }) c' h in
    ap (λ x. get_line x a) (sym q)
