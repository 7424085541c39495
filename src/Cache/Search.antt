-- ===== src/Cache/Search.antt =====
-- What the loop of `updateLine` finds in a row.
use syncd_sim.Base.{
  ℕ, suc, ◌-◌, ◌≤◌, ◌<◌, ◌≡◌, ◌⊎◌, inl, inr, refl, true, false, List, [], ◌∷◌, Option, none, some,
  arith, get_elem?, set, All, ltb, Bool-cases, ltb→lt, sym, ap, ◌∙◌,
}
use mathlib.Core.Bool.{false≢true}
use native.Mathlib.Nat.{sub-zero}
use syncd_sim.Cache.{CacheLine, Scan, hit, miss, is_hit, find_line, first_free, scan}

-- `l` stands at index `j` of a row whose first line has index `i`.
pub record At (i j : ℕ) (l : CacheLine) (ls : List CacheLine) : Type 0 where
  pub from : i ≤ j
  pub there : get_elem? ls (j - i) ≡ some l

sub_self : (i : ℕ) → i - i ≡ 0
sub_self i = omega arith

sub-suc_of_lt : (i j : ℕ) → i < j → j - i ≡ suc (j - suc i)
sub-suc_of_lt i j h = omega arith

At-here : (i : ℕ) (l : CacheLine) (ls : List CacheLine) → At i i l (l ∷ ls)
At-here i l ls = record { from = omega arith; there = rw (sub_self i) refl }

At-later :
    {i j : ℕ} {l : CacheLine} {ls : List CacheLine} (k : CacheLine)
    → At (suc i) j l ls
    → At i j l (k ∷ ls)
At-later {i} {j} k a = record {
  from = omega (arith, a.from);
  there = rw (sub-suc_of_lt i j a.from) a.there;
}

pub At-zero : {j : ℕ} {l : CacheLine} {ls : List CacheLine} → At 0 j l ls → get_elem? ls j ≡ some l
At-zero {j} {ls} a = ap (get_elem? ls) (sym (sub-zero j)) ∙ a.there

-- No valid line has a counter below `n`.
abbrev pub IsOldest : ℕ → CacheLine → Type 0
IsOldest n l = l.valid ≡ true → n ≤ l.lru_counter

abbrev pub IsUsed : CacheLine → Type 0
IsUsed l = l.valid ≡ true

-- No earlier line has the tag.
abbrev pub IsFirst : ℕ → List CacheLine → ℕ → Type 0
IsFirst tag ls j = (x : CacheLine) → is_hit tag x ≡ true → find_line tag (set ls j x) ≡ some x

module _ (i : ℕ) (ls : List CacheLine) where
  -- A free line was found earlier, or stands here, or there is none.
  abbrev pub Free : Option ℕ → Option ℕ → Type 0
  Free old w =
      ((w ≡ old) × (old ≡ none → All IsUsed ls))
      ⊎ ((j : ℕ) × (l : CacheLine) × (w ≡ some j) × At i j l ls × (l.valid ≡ false))

  -- The victim is the one found earlier, or a used line here, below the bound.
  abbrev pub Victim : ℕ → Option ℕ → Option ℕ → Type 0
  Victim bound old v =
      ((v ≡ old) × All (IsOldest bound) ls)
      ⊎ ((j : ℕ) × (l : CacheLine) × (v ≡ some j)
          × At i j l ls
          × (l.lru_counter < bound)
          × All (IsOldest l.lru_counter) ls)

  abbrev pub Found : ℕ → Option ℕ → ℕ → Option ℕ → Scan → Type 0
  Found tag free bound victim (hit j) =
      (l : CacheLine) × At i j l ls × (is_hit tag l ≡ true) × IsFirst tag ls (j - i)
  Found tag free bound victim (miss w v) =
      (find_line tag ls ≡ none) × Free free w × Victim bound victim v

module _ (i : ℕ) (k : CacheLine) (ls : List CacheLine) where
  Free-unused :
      (free w : Option ℕ)
      → k.valid ≡ false
      → Free (suc i) ls (first_free free i) w
      → Free i (k ∷ ls) free w
  Free-unused none w u (inl (e, _)) = inr (i, k, e, At-here i k ls, u)
  Free-unused (some j) w u (inl (e, _)) = inl (e, λ q. cc)
  Free-unused free w u (inr (j, l, e, a, q)) = inr (j, l, e, At-later k a, q)

  Free-used : (free w : Option ℕ) → k.valid ≡ true → Free (suc i) ls free w → Free i (k ∷ ls) free w
  Free-used free w u (inl (e, all)) = inl (e, λ q. (u, all q))
  Free-used free w u (inr (j, l, e, a, q)) = inr (j, l, e, At-later k a, q)

  Victim-passed :
      (bound : ℕ) (victim v : Option ℕ)
      → ((n : ℕ) → n ≤ bound → IsOldest n k)
      → Victim (suc i) ls bound victim v
      → Victim i (k ∷ ls) bound victim v
  Victim-passed bound victim v o (inl (e, all)) = inl (e, (o bound (omega arith), all))
  Victim-passed bound victim v o (inr (j, l, e, a, lt, all)) =
      inr (j, l, e, At-later k a, lt, (o l.lru_counter (omega arith), all))

  Victim-taken :
      (bound : ℕ) (victim v : Option ℕ)
      → k.lru_counter < bound
      → Victim (suc i) ls k.lru_counter (some i) v
      → Victim i (k ∷ ls) bound victim v
  Victim-taken bound victim v lt (inl (e, all)) =
      inr (i, k, e, At-here i k ls, lt, ((λ _. omega arith), all))
  Victim-taken bound victim v lt (inr (j, l, e, a, below, all)) =
      inr (j, l, e, At-later k a, omega arith, ((λ _. omega arith), all))

-- One line of the row at a time.
module _ (tag i : ℕ) (k : CacheLine) (ls : List CacheLine) where
  Found-later :
      (free free' : Option ℕ) (bound bound' : ℕ) (victim victim' : Option ℕ) (r : Scan)
      → is_hit tag k ≡ false
      → ((w : Option ℕ) → Free (suc i) ls free' w → Free i (k ∷ ls) free w)
      → ((v : Option ℕ) → Victim (suc i) ls bound' victim' v → Victim i (k ∷ ls) bound victim v)
      → Found (suc i) ls tag free' bound' victim' r
      → Found i (k ∷ ls) tag free bound victim r
  unfolding find_line
  Found-later free free' bound bound' victim victim' (hit j) h f g (l, a, e, first) =
      (l, At-later k a, e, λ x q. rw (sub-suc_of_lt i j a.from) (rw h (first x q)))
  Found-later free free' bound bound' victim victim' (miss w v) h f g (n, p, q) =
      (rw h n, f w p, g v q)

module _ (tag i : ℕ) (k : CacheLine) (ls : List CacheLine) (free : Option ℕ) (bound : ℕ)
    (victim : Option ℕ) where
  scan_hit : is_hit tag k ≡ true → scan tag (k ∷ ls) i free bound victim ≡ hit i
  unfolding scan
  scan_hit h = ground arith

  scan_unused :
      is_hit tag k ≡ false
      → k.valid ≡ false
      → scan tag (k ∷ ls) i free bound victim ≡ scan tag ls (suc i) (first_free free i) bound victim
  unfolding scan
  scan_unused h u = ground arith

  scan_taken :
      is_hit tag k ≡ false
      → k.valid ≡ true
      → ltb k.lru_counter bound ≡ true
      → scan tag (k ∷ ls) i free bound victim ≡ scan tag ls (suc i) free k.lru_counter (some i)
  unfolding scan
  scan_taken h u lt = ground arith

  scan_passed :
      is_hit tag k ≡ false
      → k.valid ≡ true
      → ltb k.lru_counter bound ≡ false
      → scan tag (k ∷ ls) i free bound victim ≡ scan tag ls (suc i) free bound victim
  unfolding scan
  scan_passed h u ge = ground arith

pub scan-Found :
    (tag : ℕ) (ls : List CacheLine) (i : ℕ) (free : Option ℕ) (bound : ℕ) (victim : Option ℕ)
    → Found i ls tag free bound victim (scan tag ls i free bound victim)
unfolding find_line
scan-Found tag [] i free bound victim = unfold scan in (refl, inl (refl, λ _. tt), inl (refl, tt))
scan-Found tag (k ∷ ls) i free bound victim = elim (Bool-cases (is_hit tag k)) [
  | inl h ↦
      rw (scan_hit tag i k ls free bound victim h)
        (k, At-here i k ls, h, λ x q. rw (sub_self i) (rw q))
  | inr h ↦ elim (Bool-cases k.valid) [
    | inr u ↦ rw (scan_unused tag i k ls free bound victim h u) (
        Found-later tag i k ls free (first_free free i) bound bound victim victim _ h
          (λ w. Free-unused i k ls free w u)
          (λ v. Victim-passed i k ls bound victim v (λ n _ x. absurd (false≢true (sym u ∙ x))))
          (scan-Found tag ls (suc i) (first_free free i) bound victim))
    | inl u ↦ elim (Bool-cases (ltb k.lru_counter bound)) [
      | inl lt ↦ rw (scan_taken tag i k ls free bound victim h u lt) (
          Found-later tag i k ls free free bound k.lru_counter victim (some i) _ h
            (λ w. Free-used i k ls free w u)
            (λ v. Victim-taken i k ls bound victim v (ltb→lt _ _ lt))
            (scan-Found tag ls (suc i) free k.lru_counter (some i)))
      | inr ge ↦ rw (scan_passed tag i k ls free bound victim h u ge) (
          Found-later tag i k ls free free bound bound victim victim _ h
            (λ w. Free-used i k ls free w u)
            (λ v. Victim-passed i k ls bound victim v (λ n p x. ground arith))
            (scan-Found tag ls (suc i) free bound victim))
    ]
  ]
]
