-- ===== src/Middle/Distinct.antt =====
-- The map of middle/taskWrite.cpp with each number once: what its edges and lookups are when an
-- entry is taken out or counted down.
use syncd_sim.Base.{
  ℕ, suc, ◌+◌, false, List, [], ◌∷◌, ◌==◌, length, if◌then◌else◌, none, some, ◌≡◌, ◌≢◌, refl, sym,
  ◌∙◌, arith, Bool-cases, inl, inr, ==_iff, subst,
}
use syncd_sim.Middle.Writer.{TaskWrapper, WriteMap, Ready, push, find, erase, count_down}
use syncd_sim.Middle.Edges.{occurs, edges}

-- No number stands in the map twice.
abbrev pub Distinct : WriteMap → Type 0
Distinct [] = Unit
Distinct ((j, w) ∷ m) = (find j m ≡ none) × Distinct m

pub find-erase_self : (k : ℕ) (m : WriteMap) → find k (erase k m) ≡ none
unfolding find erase
find-erase_self k [] = refl
find-erase_self k ((j, w) ∷ m) = ground (arith, find-erase_self k m)

pub find-erase_other : (k j : ℕ) (m : WriteMap) → (j == k) ≡ false → find k (erase j m) ≡ find k m
unfolding find erase
find-erase_other k j [] h = refl
find-erase_other k j ((i, w) ∷ m) h = ground (arith, find-erase_other k j m)

pub erase-absent : (k : ℕ) (m : WriteMap) → find k m ≡ none → erase k m ≡ m
unfolding find erase
erase-absent k [] h = refl
erase-absent k ((j, w) ∷ m) h = ground (arith, erase-absent k m)

pub edges-erase_eq :
    (k j : ℕ) (m : WriteMap) (w : TaskWrapper)
    → Distinct m
    → find j m ≡ some w
    → edges k (erase j m) + occurs k w.s ≡ edges k m
unfolding edges erase find
edges-erase_eq k j [] w d h = absurd (cc)
edges-erase_eq k j ((i, v) ∷ m) w d h = elim (Bool-cases (i == j)) [
  | inl same ↦
      let there : v ≡ w = ground arith in
      let gone : erase j m ≡ m =
        erase-absent j m (subst (λ n. find n m ≡ none) ((==_iff i j).0 same) d.0) in
      rw (same, gone, ← there) (omega arith)
  | inr other ↦
      let rest = edges-erase_eq k j m w d.1 (ground arith) in rw other (omega (arith, rest))
]

pub length-erase_eq :
    (j : ℕ) (m : WriteMap) (w : TaskWrapper)
    → Distinct m
    → find j m ≡ some w
    → suc (length (erase j m)) ≡ length m
unfolding erase find
length-erase_eq j [] w d h = absurd (cc)
length-erase_eq j ((i, v) ∷ m) w d h = elim (Bool-cases (i == j)) [
  | inl same ↦
      let gone : erase j m ≡ m =
        erase-absent j m (subst (λ n. find n m ≡ none) ((==_iff i j).0 same) d.0) in
      rw (same, gone) refl
  | inr other ↦
      let rest = length-erase_eq j m w d.1 (ground arith) in rw other (omega (arith, rest))
]

pub Distinct-erase : (j : ℕ) (m : WriteMap) → Distinct m → Distinct (erase j m)
unfolding erase
Distinct-erase j [] d = tt
Distinct-erase j ((i, w) ∷ m) d = elim (Bool-cases (i == j)) [
  | inl same ↦ rw same (Distinct-erase j m d.1)
  | inr other ↦ rw other (find-erase_other i j m (ground arith) ∙ d.0, Distinct-erase j m d.1)
]

pub find-count_down-none :
    (k j : ℕ) (m : WriteMap) → find k m ≡ none → find k (count_down j m) ≡ none
unfolding find count_down
find-count_down-none k j [] h = refl
find-count_down-none k j ((i, w) ∷ m) h = ground (arith, find-count_down-none k j m)

pub find-none-count_down :
    (k j : ℕ) (m : WriteMap) → find k (count_down j m) ≡ none → find k m ≡ none
unfolding find count_down
find-none-count_down k j [] h = refl
find-none-count_down k j ((i, w) ∷ m) h = ground (arith, find-none-count_down k j m)

pub Distinct-count_down : (j : ℕ) (m : WriteMap) → Distinct m → Distinct (count_down j m)
unfolding count_down
Distinct-count_down j [] d = tt
Distinct-count_down j ((i, w) ∷ m) d = elim (Bool-cases (i == j)) [
  | inl same ↦ rw same (d.0, d.1)
  | inr other ↦ rw other (find-count_down-none i j m d.0, Distinct-count_down j m d.1)
]

count_down-absent : (k : ℕ) (m : WriteMap) → find k m ≡ none → count_down k m ≡ m
unfolding find count_down
count_down-absent k [] h = refl
count_down-absent k ((j, w) ∷ m) h = ground (arith, count_down-absent k m)

pub erase-count_down :
    (i j : ℕ) (m : WriteMap) → erase i (count_down j m) ≡ count_down j (erase i m)
unfolding erase count_down
erase-count_down i j [] = refl
erase-count_down i j ((h, w) ∷ m) = elim (Bool-cases (h == i)) [
  | inl same ↦ elim (Bool-cases (h == j)) [
    | inl too ↦
        let one : i ≡ j = sym ((==_iff h i).0 same) ∙ (==_iff h j).0 too in
        let still : count_down j (erase i m) ≡ erase i m =
          subst (λ n. count_down n (erase i m) ≡ erase i m) one
            (count_down-absent i (erase i m) (find-erase_self i m)) in
        rw (too, same, still) refl
    | inr apart ↦ rw (apart, same) (erase-count_down i j m)
  ]
  | inr other ↦ ground (arith, erase-count_down i j m)
]

pub edges-count_down : (k j : ℕ) (m : WriteMap) → edges k (count_down j m) ≡ edges k m
unfolding edges count_down
edges-count_down k j [] = refl
edges-count_down k j ((i, w) ∷ m) = ground (arith, edges-count_down k j m)

pub length-push : (e : Ready) (q : List Ready) → length (push e q) ≡ suc (length q)
unfolding push
length-push e [] = refl
length-push e (f ∷ q) = ground (arith, length-push e q)

-- How often a task waits in the queue.
unfoldable pub queued : ℕ → List Ready → ℕ
queued k [] = 0
queued k ((start, (tid, offset)) ∷ q) = (if tid == k then 1 else 0) + queued k q

pub queued-push :
    (k start tid offset : ℕ) (q : List Ready)
    → queued k (push (start, (tid, offset)) q) ≡ (if tid == k then 1 else 0) + queued k q
unfolding queued push
queued-push k start tid offset [] = refl
queued-push k start tid offset ((s, (t, o)) ∷ q) = ground (arith, queued-push k start tid offset q)

-- An edge to a task starts at some task of the map.
pub edges-from :
    (k : ℕ) (m : WriteMap)
    → Distinct m
    → edges k m ≢ 0
    → (j : ℕ) × (w : TaskWrapper) × (find j m ≡ some w) × (occurs k w.s ≢ 0)
unfolding edges find
edges-from k [] d h = absurd (h refl)
edges-from k ((i, v) ∷ m) d h = elim (Bool-cases (occurs k v.s == 0)) [
  | inl none_here ↦
      let (j, w, at, o) = edges-from k m d.1 (λ e. h (ground arith)) in
      let other : (i == j) ≡ false = elim (Bool-cases (i == j)) [
        | inl same ↦ absurd (let e = subst (λ n. find n m ≡ none) ((==_iff i j).0 same) d.0 in cc)
        | inr ne ↦ ne
      ] in
      (j, w, rw other at, o)
  | inr here ↦ (i, v, ground arith, λ e. ground arith)
]
