-- ===== src/Cache/Writes.antt =====
-- The ways in which `updateLine` writes its row: over a line, into a free one, instead of a
-- victim.
use syncd_sim.Base.{
  ℕ, zero, suc, ◌<◌, ◌≡◌, ◌≢◌, inl, inr, refl, sym, ap, subst, true, false, List, [], ◌∷◌, Option,
  none, some, arith, length, get_elem?, set, All, length-set,
}
use native.Mathlib.Nat.{sub-zero}
use syncd_sim.Types.{int_max}
use syncd_sim.Cache.{CacheLine, Scan, hit, miss, is_hit, find_line, write_row, update_set, written}
use syncd_sim.Cache.Search.{At-zero, Found, Victim, IsFirst, IsUsed, IsOldest, scan-Found}

is_hit-written : (tag counter : ℕ) → is_hit tag (written tag counter) ≡ true
is_hit-written tag counter = ground arith

find_line-set_new :
    (tag : ℕ) (ls : List CacheLine) (j : ℕ) (x l : CacheLine)
    → find_line tag ls ≡ none
    → is_hit tag x ≡ true
    → get_elem? ls j ≡ some l
    → find_line tag (set ls j x) ≡ some x
unfolding find_line
find_line-set_new tag [] j x l n h e = cc
find_line-set_new tag (k ∷ ls) zero x l n h e = rw h
find_line-set_new tag (k ∷ ls) (suc j) x l n h e = ground (arith, find_line-set_new tag ls j x l)

-- A line that is not one for `other` gives way to another such line.
find_line-set_other :
    (other : ℕ) (ls : List CacheLine) (j : ℕ) (x l : CacheLine)
    → is_hit other x ≡ false
    → is_hit other l ≡ false
    → get_elem? ls j ≡ some l
    → find_line other (set ls j x) ≡ find_line other ls
unfolding find_line
find_line-set_other other [] j x l hx hl e = refl
find_line-set_other other (k ∷ ls) zero x l hx hl e = ground arith
find_line-set_other other (k ∷ ls) (suc j) x l hx hl e =
    ground (arith, find_line-set_other other ls j x l)

-- The three ways in which a row is written.
pub data Written (tag counter : ℕ) (ls : List CacheLine) : List CacheLine → Option ℕ → Type 0 where
  over :
      (j : ℕ) (l : CacheLine)
      → get_elem? ls j ≡ some l
      → is_hit tag l ≡ true
      → IsFirst tag ls j
      → Written tag counter ls (set ls j (written tag counter)) none
  into :
      (j : ℕ) (l : CacheLine)
      → get_elem? ls j ≡ some l
      → l.valid ≡ false
      → find_line tag ls ≡ none
      → Written tag counter ls (set ls j (written tag counter)) none
  instead_of :
      (j : ℕ) (l : CacheLine)
      → get_elem? ls j ≡ some l
      → All IsUsed ls
      → All (IsOldest l.lru_counter) ls
      → find_line tag ls ≡ none
      → Written tag counter ls (set ls j (written tag counter)) (some l.tag)

module _ (tag counter : ℕ) (ls : List CacheLine) where
  abbrev Outcome : Option (List CacheLine × Option ℕ) → Type 0
  Outcome none = All IsUsed ls × All (IsOldest int_max) ls
  Outcome (some p) = Written tag counter ls p.0 p.1

  write_hit :
      (l : CacheLine)
      → is_hit tag l ≡ true
      → record l { dirty = true; lru_counter = counter } ≡ written tag counter
  write_hit l h = ground arith

  write_row-over :
      (j : ℕ) (l : CacheLine)
      → get_elem? ls j ≡ some l
      → is_hit tag l ≡ true
      → write_row tag counter ls (hit j) ≡ some (set ls j (written tag counter), none)
  write_row-over j l e h = rw (e, write_row) (ap (λ x. some (set ls j x, none)) (write_hit l h))

  write_row-instead_of :
      (j : ℕ) (l : CacheLine)
      → get_elem? ls j ≡ some l
      → write_row tag counter ls (miss none (some j))
        ≡ some (set ls j (written tag counter), some l.tag)
  write_row-instead_of j l e = rw (e, write_row)

  write_row-full :
      (v : Option ℕ)
      → find_line tag ls ≡ none
      → All IsUsed ls
      → Victim 0 ls int_max none v
      → Outcome (write_row tag counter ls (miss none v))
  write_row-full v n used (inl (e, old)) =
      subst (λ u. Outcome (write_row tag counter ls (miss none u))) (sym e) (used, old)
  write_row-full v n used (inr (j, l, e, a, below, old)) =
      subst (λ u. Outcome (write_row tag counter ls (miss none u))) (sym e)
        (subst Outcome (sym (write_row-instead_of j l (At-zero a)))
          (instead_of j l (At-zero a) used old n))

  write_row-Outcome :
      (r : Scan) → Found 0 ls tag none int_max none r → Outcome (write_row tag counter ls r)
  write_row-Outcome (hit j) (l, a, h, first) =
      subst Outcome (sym (write_row-over j l (At-zero a) h))
        (over j l (At-zero a) h (subst (IsFirst tag ls) (sub-zero j) first))
  write_row-Outcome (miss w v) (n, inl (e, used), vic) =
      subst (λ u. Outcome (write_row tag counter ls (miss u v))) (sym e)
        (write_row-full v n (used refl) vic)
  write_row-Outcome (miss w v) (n, inr (j, l, e, a, u), vic) =
      subst (λ u. Outcome (write_row tag counter ls (miss u v))) (sym e) (into j l (At-zero a) u n)

update_set-Outcome :
    (tag counter : ℕ) (ls : List CacheLine) → Outcome tag counter ls (update_set tag counter ls)
unfolding update_set
update_set-Outcome tag counter ls =
    write_row-Outcome tag counter ls _ (scan-Found tag ls 0 none int_max none)

pub update_set-Written :
    (tag counter : ℕ) (ls row : List CacheLine) (ev : Option ℕ)
    → update_set tag counter ls ≡ some (row, ev)
    → Written tag counter ls row ev
update_set-Written tag counter ls row ev h =
    subst (Outcome tag counter ls) h (update_set-Outcome tag counter ls)

-- A row with a line in it and all counters below INT_MAX can be written.
pub update_set_total :
    (tag counter : ℕ) (ls : List CacheLine)
    → ls ≢ []
    → All (λ l. l.lru_counter < int_max) ls
    → update_set tag counter ls ≢ none
update_set_total tag counter [] ne below h = ne refl
update_set_total tag counter (l ∷ ls) ne below h =
    let o = subst (Outcome tag counter (l ∷ ls)) h (update_set-Outcome tag counter (l ∷ ls)) in
    absurd (omega (arith, o.1.0 o.0.0, below.0))

-- The written line is found again.
pub Written-find_self :
    {tag counter : ℕ} {ls row : List CacheLine} {ev : Option ℕ}
    → Written tag counter ls row ev
    → find_line tag row ≡ some (written tag counter)
Written-find_self {tag} {counter} (over j l e h first) =
    first (written tag counter) (is_hit-written tag counter)
Written-find_self {tag} {counter} {ls} (into j l e u n) =
    find_line-set_new tag ls j _ l n (is_hit-written tag counter) e
Written-find_self {tag} {counter} {ls} (instead_of j l e u old n) =
    find_line-set_new tag ls j _ l n (is_hit-written tag counter) e

-- Every other line that is not evicted is found as before.
pub Written-find_other :
    {tag counter : ℕ} {ls row : List CacheLine} {ev : Option ℕ} (other : ℕ)
    → Written tag counter ls row ev
    → other ≢ tag
    → ev ≢ some other
    → find_line other row ≡ find_line other ls
Written-find_other {ls} other (over j l e h first) ne keep =
    find_line-set_other other ls j _ l (ground arith) (ground arith) e
Written-find_other {ls} other (into j l e u n) ne keep =
    find_line-set_other other ls j _ l (ground arith) (ground arith) e
Written-find_other {ls} other (instead_of j l e u old n) ne keep =
    find_line-set_other other ls j _ l (ground arith) (ground arith) e

pub Written-length :
    {tag counter : ℕ} {ls row : List CacheLine} {ev : Option ℕ}
    → Written tag counter ls row ev
    → length row ≡ length ls
Written-length {ls} (over j l e h first) = length-set ls j _
Written-length {ls} (into j l e u n) = length-set ls j _
Written-length {ls} (instead_of j l e u old n) = length-set ls j _
