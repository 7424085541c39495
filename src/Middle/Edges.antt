-- ===== src/Middle/Edges.antt =====
-- The edges of the map of middle/taskWrite.cpp: how often a task stands among the successors of the
-- tasks that are still there, against the count of predecessors that it waits for.
use syncd_sim.Base.{
  ℕ, zero, suc, ◌+◌, ◌≤◌, true, false, List, [], ◌∷◌, ◌==◌, if◌then◌else◌, none, some, ◌≡◌, refl,
  arith, ℤ, pos, negsuc, pred_ℤ, is_zero_ℤ,
}
use syncd_sim.Middle.Writer.{TaskWrapper, WriteMap, find, erase, count_down}

unfoldable pub occurs : ℕ → List ℕ → ℕ
occurs k [] = 0
occurs k (x ∷ xs) = (if x == k then 1 else 0) + occurs k xs

unfoldable pub edges : ℕ → WriteMap → ℕ
edges k [] = 0
edges k ((j, w) ∷ m) = occurs k w.s + edges k m

-- The successors of a task of the map.
unfoldable pub succs_of : ℕ → WriteMap → List ℕ
succs_of k [] = []
succs_of k ((j, w) ∷ m) = if j == k then w.s else succs_of k m

pub edges-erase-count_down :
    (k i j : ℕ) (m : WriteMap) → edges k (erase i (count_down j m)) ≡ edges k (erase i m)
unfolding edges erase count_down
edges-erase-count_down k i j [] = refl
edges-erase-count_down k i j ((h, w) ∷ m) = ground (arith, edges-erase-count_down k i j m)

pub edges-erase_le : (k j : ℕ) (m : WriteMap) → edges k (erase j m) ≤ edges k m
unfolding edges erase
edges-erase_le k j [] = omega arith
edges-erase_le k j ((i, w) ∷ m) = ground (arith, edges-erase_le k j m)

-- A task that is taken out takes its edges with it.
pub edges-erase :
    (k j : ℕ) (m : WriteMap) (w : TaskWrapper)
    → find j m ≡ some w
    → edges k (erase j m) + occurs k w.s ≤ edges k m
unfolding edges erase find
edges-erase k j [] w h = absurd (cc)
edges-erase k j ((i, v) ∷ m) w h = ground (arith, edges-erase_le k j m, edges-erase k j m w)

abbrev pub counted_down : TaskWrapper → TaskWrapper
counted_down w = record w { p = pred_ℤ w.p }

pub find-count_down_self :
    (k : ℕ) (m : WriteMap) (w : TaskWrapper)
    → find k m ≡ some w
    → find k (count_down k m) ≡ some (counted_down w)
unfolding find count_down
find-count_down_self k [] w h = cc
find-count_down_self k ((j, v) ∷ m) w h = ground (arith, find-count_down_self k m w)

pub find-count_down_other :
    (k j : ℕ) (m : WriteMap) → (j == k) ≡ false → find k (count_down j m) ≡ find k m
unfolding find count_down
find-count_down_other k j [] h = refl
find-count_down_other k j ((i, v) ∷ m) h = ground (arith, find-count_down_other k j m)

find-erase_eq : (k j : ℕ) (m : WriteMap) → find k (erase j m) ≡ (if j == k then none else find k m)
unfolding find erase
find-erase_eq k j [] = ground arith
find-erase_eq k j ((i, w) ∷ m) = ground (arith, find-erase_eq k j m)

pub find-erase :
    (k j : ℕ) (m : WriteMap) (w : TaskWrapper) → find k (erase j m) ≡ some w → find k m ≡ some w
find-erase k j m w h = ground (arith, find-erase_eq k j m)

pub succs_of-find :
    (k : ℕ) (m : WriteMap) (w : TaskWrapper) → find k m ≡ some w → succs_of k m ≡ w.s
unfolding find succs_of
succs_of-find k [] w h = cc
succs_of-find k ((j, v) ∷ m) w h = ground (arith, succs_of-find k m w)

-- `c ≤ p`
abbrev pub AtMost : ℕ → ℤ → Type 0
AtMost c (pos n) = c ≤ n
AtMost c (negsuc n) = ⊥

pub AtMost-pred : (c : ℕ) (p : ℤ) → AtMost (suc c) p → AtMost c (pred_ℤ p)
AtMost-pred c (pos zero) h = absurd (omega arith)
AtMost-pred c (pos (suc n)) h = omega arith
AtMost-pred c (negsuc n) h = h

pub AtMost-le : (c d : ℕ) (p : ℤ) → c ≤ d → AtMost d p → AtMost c p
AtMost-le c d (pos n) h k = omega arith
AtMost-le c d (negsuc n) h k = k

pub AtMost-zero : (c : ℕ) (p : ℤ) → is_zero_ℤ p ≡ true → AtMost c p → c ≡ 0
AtMost-zero c (pos zero) e h = omega arith
AtMost-zero c (pos (suc n)) e h = absurd (cc)
AtMost-zero c (negsuc n) e h = absurd h
