-- ===== src/Middle/Places.antt =====
-- Where the tasks of the map of middle/taskWrite.cpp stand in the file, and that the functions of
-- the sorting leave this as it is.
use syncd_sim.Base.{
  ℕ, ◌<◌, ◌≤◌, Bool, true, false, List, [], ◌∷◌, ◌==◌, ltb, length, if◌then◌else◌, Option, none,
  some, ◌≡◌, refl, sym, ap, ◌∙◌, arith, All, Bool-cases, inl, inr, is_zero_ℤ, pred_ℤ, ==_iff,
  some_injective, subst,
}
use syncd_sim.Base.Effects.{ok, ok_injective}
use syncd_sim.Base.Effects.Results.{>>=-eq-ok, expect-eq-ok}
use syncd_sim.Middle.Writer.{
  TaskWrapper, WriteMap, Ready, ready, Sorting, find, erase, count_down, push, release, release_all,
}

unfoldable pub pos_of : ℕ → WriteMap → Option ℕ
pos_of k [] = none
pos_of k ((j, w) ∷ m) = if j == k then some w.write_pos else pos_of k m

pub pos_of-find :
    (k : ℕ) (m : WriteMap) (w : TaskWrapper) → find k m ≡ some w → pos_of k m ≡ some w.write_pos
unfolding find pos_of
pos_of-find k [] w h = cc
pos_of-find k ((j, v) ∷ m) w h = ground (arith, pos_of-find k m w)

pub pos_of-count_down : (k j : ℕ) (m : WriteMap) → pos_of k (count_down j m) ≡ pos_of k m
unfolding pos_of count_down
pos_of-count_down k j [] = refl
pos_of-count_down k j ((i, w) ∷ m) = ground (arith, pos_of-count_down k j m)

pub length-count_down : (j : ℕ) (m : WriteMap) → length (count_down j m) ≡ length m
unfolding count_down
length-count_down j [] = refl
length-count_down j ((i, w) ∷ m) = ground (arith, length-count_down j m)

pub pos_of-erase :
    (k j : ℕ) (m : WriteMap) → pos_of k (erase j m) ≡ (if j == k then none else pos_of k m)
unfolding pos_of erase
pos_of-erase k j [] = ground arith
pos_of-erase k j ((i, w) ∷ m) = ground (arith, pos_of-erase k j m)

length-erase_le : (j : ℕ) (m : WriteMap) → length (erase j m) ≤ length m
unfolding erase
length-erase_le j [] = omega arith
length-erase_le j ((i, w) ∷ m) = ground (arith, length-erase_le j m)

pub length-erase :
    (j : ℕ) (m : WriteMap) (p : ℕ) → pos_of j m ≡ some p → length (erase j m) < length m
unfolding erase pos_of
length-erase j [] p h = cc
length-erase j ((i, v) ∷ m) p h = ground (arith, length-erase_le j m, length-erase j m p)

-- Every entry is under the number of its task.
abbrev pub Keyed : WriteMap → Type 0
Keyed = All (λ (e : ℕ × TaskWrapper). e.1.self ≡ e.0)

pub Keyed-find : (k : ℕ) (m : WriteMap) (w : TaskWrapper) → Keyed m → find k m ≡ some w → w.self ≡ k
unfolding find
Keyed-find k [] w h e = cc
Keyed-find k ((j, v) ∷ m) w h e = ground (arith, h.0, Keyed-find k m w h.1)

pub Keyed-count_down : (k : ℕ) (m : WriteMap) → Keyed m → Keyed (count_down k m)
unfolding count_down
Keyed-count_down k [] h = tt
Keyed-count_down k ((j, w) ∷ m) h = elim (Bool-cases (j == k)) [
  | inl e ↦ rw e (h.0, h.1)
  | inr e ↦ rw e (h.0, Keyed-count_down k m h.1)
]

pub Keyed-erase : (k : ℕ) (m : WriteMap) → Keyed m → Keyed (erase k m)
unfolding erase
Keyed-erase k [] h = tt
Keyed-erase k ((j, w) ∷ m) h = elim (Bool-cases (j == k)) [
  | inl e ↦ rw e (Keyed-erase k m h.1)
  | inr e ↦ rw e (h.0, Keyed-erase k m h.1)
]

-- A task that is ready has the position that the map gives for it, while it is in the map.
pub record Agrees (m : WriteMap) (e : Ready) : Type 0 where
  pub same : (p : ℕ) → pos_of (e.1.0) m ≡ some p → p ≡ e.1.1

pub Agrees-map :
    (m m' : WriteMap)
    → ((k p : ℕ) → pos_of k m' ≡ some p → pos_of k m ≡ some p)
    → (q : List Ready) → All (Agrees m) q
    → All (Agrees m') q
Agrees-map m m' h [] a = tt
Agrees-map m m' h (e ∷ q) a =
    (record { same = λ p k. a.0.same p (h e.1.0 p k) }, Agrees-map m m' h q a.1)

pub All-push {κ} :
    (P : Ready → Type κ) (e : Ready) (q : List Ready) → P e → All P q → All P (push e q)
unfolding push
All-push P e [] h a = (h, tt)
All-push P e (f ∷ q) h a = elim (Bool-cases (ltb e.0 f.0)) [
  | inl b ↦ rw b (h, a)
  | inr b ↦ rw b (a.0, All-push P e q h a.1)
]

-- What a step of the sorting that erases nothing keeps.
pub record Kept (st st' : Sorting) : Type 0 where
  pub positions : (k : ℕ) → pos_of k st'.write_task_map ≡ pos_of k st.write_task_map
  pub size : length st'.write_task_map ≡ length st.write_task_map
  pub keyed : Keyed st'.write_task_map
  pub queue : All (Agrees st'.write_task_map) st'.task_sort

release-Kept :
    (succ : ℕ) (st st' : Sorting)
    → Keyed st.write_task_map
    → All (Agrees st.write_task_map) st.task_sort
    → release succ st ≡ ok st'
    → Kept st st'
unfolding release
release-Kept succ st st' keyed queue e =
    let (w, found, made) = >>=-eq-ok _ _ e in
    let at = expect-eq-ok _ _ found in
    subst (Kept st) (ok_injective made) (record {
      positions = λ k. pos_of-count_down k succ m;
      size = length-count_down succ m;
      keyed = Keyed-count_down succ m keyed;
      queue = counted w at (is_zero_ℤ (pred_ℤ w.p));
    })
  where
    m : WriteMap
    m = st.write_task_map

    still : (k p : ℕ) → pos_of k (count_down succ m) ≡ some p → pos_of k m ≡ some p
    still k p h = sym (pos_of-count_down k succ m) ∙ h

    top : (w : TaskWrapper) → find succ m ≡ some w → Agrees m (ready w)
    top w at = record {
      same = λ p h.
          some_injective
            (sym h ∙ ap (λ k. pos_of k m) (Keyed-find succ m w keyed at) ∙ pos_of-find succ m w at);
    }

    counted :
        (w : TaskWrapper) (at : find succ m ≡ some w) (b : Bool)
        → All (Agrees (count_down succ m)) (if b then push (ready w) st.task_sort else st.task_sort)
    counted w at true =
        Agrees-map m (count_down succ m) still _
          (All-push _ (ready w) st.task_sort (top w at) queue)
    counted w at false = Agrees-map m (count_down succ m) still _ queue

Kept-trans : (a b c : Sorting) → Kept a b → Kept b c → Kept a c
Kept-trans a b c h k = record {
  positions = λ i. k.positions i ∙ h.positions i;
  size = k.size ∙ h.size;
  keyed = k.keyed;
  queue = k.queue;
}

pub release_all-Kept :
    (succs : List ℕ) (st st' : Sorting)
    → Keyed st.write_task_map
    → All (Agrees st.write_task_map) st.task_sort
    → release_all succs st ≡ ok st'
    → Kept st st'
unfolding release_all
release_all-Kept [] st st' keyed queue e =
    subst (Kept st) (ok_injective e)
      (record { positions = λ k. refl; size = refl; keyed = keyed; queue = queue })
release_all-Kept (succ ∷ succs) st st' keyed queue e =
    let (mid, first, rest) = >>=-eq-ok _ _ e in
    let kept = release-Kept succ st mid keyed queue first in
    Kept-trans st mid st' kept (release_all-Kept succs mid st' kept.keyed kept.queue rest)

-- What holds of every entry holds of the one that is found.
pub find-All {κ} :
    (P : ℕ → TaskWrapper → Type κ) (k : ℕ) (m : WriteMap) (w : TaskWrapper)
    → All (λ (e : ℕ × TaskWrapper). P e.0 e.1) m
    → find k m ≡ some w
    → P k w
unfolding find
find-All P k [] w a h = absurd (cc)
find-All P k ((j, v) ∷ m) w a h = elim (Bool-cases (j == k)) [
  | inl same ↦
      let at : v ≡ w = ground arith in subst (λ i. P i w) ((==_iff j k).0 same) (subst (P j) at a.0)
  | inr other ↦ find-All P k m w a.1 (ground arith)
]
