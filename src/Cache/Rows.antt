-- ===== src/Cache/Rows.antt =====
-- The invariant of a row: its length, one line for each tag, counters below the global counter.
use syncd_sim.Base.{
  ℕ, zero, suc, ◌+◌, ◌<◌, ◌≡◌, ◌≢◌, inl, inr, refl, subst, true, false, List, [], ◌∷◌, Option, none,
  some, arith, get_elem?, set, All, All-set, Bool-cases,
}
use syncd_sim.Cache.{CacheLine, is_hit, find_line, written}
use syncd_sim.Cache.Writes.{Written, over, into, instead_of}

pub All-mono :
    (n : ℕ) (ls : List CacheLine)
    → All (λ l. l.lru_counter < n) ls
    → All (λ l. l.lru_counter < n + 1) ls
All-mono n [] h = tt
All-mono n (l ∷ ls) h = (omega arith, All-mono n ls h.1)

-- Counters in a row stay below the global counter, which moves up by one.
pub Written-counters :
    {tag counter : ℕ} {ls row : List CacheLine} {ev : Option ℕ}
    → Written tag counter ls row ev
    → All (λ l. l.lru_counter < counter) ls
    → All (λ l. l.lru_counter < counter + 1) row
Written-counters {tag} {counter} {ls} (over j l e h first) c =
    All-set _ ls j (written tag counter) (All-mono counter ls c) (omega arith)
Written-counters {tag} {counter} {ls} (into j l e u n) c =
    All-set _ ls j (written tag counter) (All-mono counter ls c) (omega arith)
Written-counters {tag} {counter} {ls} (instead_of j l e u old n) c =
    All-set _ ls j (written tag counter) (All-mono counter ls c) (omega arith)

-- At most one valid line for each tag.
abbrev pub Distinct : List CacheLine → Type 0
Distinct [] = Unit
Distinct (l ∷ ls) = (l.valid ≡ true → find_line l.tag ls ≡ none) × Distinct ls

find_line-set_absent :
    (tag : ℕ) (ls : List CacheLine) (j : ℕ) (x : CacheLine)
    → find_line tag ls ≡ none
    → is_hit tag x ≡ false
    → find_line tag (set ls j x) ≡ none
unfolding find_line
find_line-set_absent tag [] j x n h = refl
find_line-set_absent tag (k ∷ ls) zero x n h = ground arith
find_line-set_absent tag (k ∷ ls) (suc j) x n h = ground (arith, find_line-set_absent tag ls j x)

Distinct-set_new :
    (tag counter : ℕ) (ls : List CacheLine) (j : ℕ)
    → find_line tag ls ≡ none
    → Distinct ls
    → Distinct (set ls j (written tag counter))
unfolding find_line
Distinct-set_new tag counter [] j n d = d
Distinct-set_new tag counter (k ∷ ls) zero n d = ground arith
Distinct-set_new tag counter (k ∷ ls) (suc j) n d = (
  (λ v. find_line-set_absent k.tag ls j (written tag counter) (d.0 v) (ground arith)),
  Distinct-set_new tag counter ls j (ground arith) d.1,
)

find_line_at :
    (tag : ℕ) (ls : List CacheLine) (j : ℕ) (l : CacheLine)
    → get_elem? ls j ≡ some l
    → is_hit tag l ≡ true
    → find_line tag ls ≢ none
unfolding find_line
find_line_at tag [] j l e h n = cc
find_line_at tag (k ∷ ls) zero l e h n = ground arith
find_line_at tag (k ∷ ls) (suc j) l e h n = ground (arith, find_line_at tag ls j l)

Distinct-set_over :
    (tag counter : ℕ) (ls : List CacheLine) (j : ℕ) (l : CacheLine)
    → get_elem? ls j ≡ some l
    → is_hit tag l ≡ true
    → Distinct ls
    → Distinct (set ls j (written tag counter))
Distinct-set_over tag counter [] j l e h d = d
Distinct-set_over tag counter (k ∷ ls) zero l e h d =
    ((λ _. subst (λ n. find_line n ls ≡ none) (ground arith) (d.0 (ground arith))), d.1)
Distinct-set_over tag counter (k ∷ ls) (suc j) l e h d = (
  (λ v.
      find_line-set_absent k.tag ls j (written tag counter) (d.0 v)
        (elim (Bool-cases (is_hit k.tag (written tag counter))) [
          | inl same ↦ absurd (find_line_at k.tag ls j l e (ground arith) (d.0 v))
          | inr other ↦ other
        ])),
  Distinct-set_over tag counter ls j l e h d.1,
)

pub Written-Distinct :
    {tag counter : ℕ} {ls row : List CacheLine} {ev : Option ℕ}
    → Written tag counter ls row ev
    → Distinct ls
    → Distinct row
Written-Distinct {tag} {counter} {ls} (over j l e h first) d =
    Distinct-set_over tag counter ls j l e h d
Written-Distinct {tag} {counter} {ls} (into j l e u n) d = Distinct-set_new tag counter ls j n d
Written-Distinct {tag} {counter} {ls} (instead_of j l e u old n) d =
    Distinct-set_new tag counter ls j n d
