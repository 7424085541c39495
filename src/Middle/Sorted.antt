-- ===== src/Middle/Sorted.antt =====
-- The sorting of middle/taskWrite.cpp ends, and if it indexes as many tasks as were written, every
-- task is in the index once, with its position.
use syncd_sim.Base.{
  ℕ, zero, suc, ◌+◌, ◌<◌, ◌≤◌, Bool, true, false, List, [], ◌∷◌, ◌++◌, ◌==◌, length, length-append,
  if◌then◌else◌, Option, none, some, ◌≡◌, ◌≢◌, refl, sym, ap, ◌∙◌, arith, All, Bool-cases, inl, inr,
  ==_iff, Option-cases, some_injective, subst,
}
use syncd_sim.Base.Effects.{ok, err, ok_injective, Fault, assertion, stray_memory, out_of_fuel}
use syncd_sim.Base.Effects.Results.{check, expect, >>=-ne-err, >>=-eq-ok, expect-eq-ok}
use syncd_sim.Middle.Writer.{
  TaskWrapper, WriteMap, Ready, ready, Sorting, find, erase, release, release_all, index_task,
  index_loop, sort_index,
}
use syncd_sim.Middle.Places.{
  pos_of, pos_of-find, pos_of-erase, length-erase, Keyed, Keyed-find, Keyed-erase, Agrees,
  Agrees-map, Kept, release_all-Kept,
}

abbrev pub or_else : Option ℕ → Option ℕ → Option ℕ
or_else none b = b
or_else (some a) b = some a

pub find-append :
    (k : ℕ) (xs ys : List (ℕ × ℕ)) → find k (xs ++ ys) ≡ or_else (find k xs) (find k ys)
unfolding find
find-append k [] ys = refl
find-append k ((j, v) ∷ xs) ys = ground (arith, find-append k xs ys)

find_one : (k j v : ℕ) → find k ((j, v) ∷ []) ≡ (if j == k then some v else none)
unfolding find
find_one k j v = refl

-- No number stands in a list twice.
abbrev pub Unique : List (ℕ × ℕ) → Type 0
Unique [] = Unit
Unique ((k, v) ∷ es) = (find k es ≡ none) × Unique es

find_absent :
    (k j w : ℕ) (es : List (ℕ × ℕ))
    → find k ((j, w) ∷ es) ≡ none
    → ((k == j) ≡ false) × (find k es ≡ none)
unfolding find
find_absent k j w es h = (ground arith, ground arith)

Unique-append :
    (k v : ℕ) (es : List (ℕ × ℕ)) → find k es ≡ none → Unique es → Unique (es ++ ((k, v) ∷ []))
Unique-append k v [] h u = (unfold find in refl, tt)
Unique-append k v ((j, w) ∷ es) h u = (later, Unique-append k v es (find_absent k j w es h).1 u.1)
  where
    later : find j (es ++ ((k, v) ∷ [])) ≡ none
    later = find-append j es _ ∙ rw (u.0, find_one j k v, (find_absent k j w es h).0)

-- `m0` is the map at the start, `entries` are indexed, and `m` and `q` are left.
pub record IsSorting (m0 : WriteMap) (entries : List (ℕ × ℕ)) (m : WriteMap) (q : List Ready)
    : Type 0 where
  pub keyed : Keyed m
  pub queue : All (Agrees m) q
  pub lookups : (k : ℕ) → or_else (find k entries) (pos_of k m) ≡ pos_of k m0
  pub gone : (k p : ℕ) → find k entries ≡ some p → pos_of k m ≡ none
  pub unique : Unique entries
  pub count : length entries + length m ≤ length m0

erase-some : (k j p : ℕ) (m : WriteMap) → pos_of k (erase j m) ≡ some p → pos_of k m ≡ some p
erase-some k j p m h = ground (arith, pos_of-erase k j m)

-- The round that indexes the task on top, `tid`, when `mid` is left by its successors.
module _ (m0 : WriteMap) (entries : List (ℕ × ℕ)) (m : WriteMap) (q : List Ready)
    (start tid offset : ℕ) (h : IsSorting m0 entries m ((start, (tid, offset)) ∷ q))
    (tw : TaskWrapper) (at : find tid m ≡ some tw) (mid : Sorting)
    (kept : Kept (record { write_task_map = m; task_sort = q }) mid) where
  here : pos_of tid m ≡ some offset
  here = pos_of-find tid m tw at ∙ ap some (h.queue.0.same tw.write_pos (pos_of-find tid m tw at))

  new : find tid entries ≡ none
  new = elim (Option-cases (find tid entries)) [
    | inl e ↦ e
    | inr (p, e) ↦ let absent = h.gone tid p e in cc (here)
  ]

  abbrev left : WriteMap
  left = erase tid mid.write_task_map

  abbrev indexed : List (ℕ × ℕ)
  indexed = entries ++ ((tid, offset) ∷ [])

  -- What a look-up finds in the entries and in the map after the round.
  find-indexed :
      (k : ℕ) → find k indexed ≡ or_else (find k entries) (if tid == k then some offset else none)
  find-indexed k = find-append k entries _ ∙ ap (or_else (find k entries)) (find_one k tid offset)

  pos_left : (k : ℕ) → pos_of k left ≡ (if tid == k then none else pos_of k m)
  pos_left k = pos_of-erase k tid mid.write_task_map ∙ rw (kept.positions k)

  lookups_left : (k : ℕ) → or_else (find k indexed) (pos_of k left) ≡ pos_of k m0
  lookups_left k =
      rw (find-indexed k, pos_left k, ← h.lookups k)
        (elim (Bool-cases (tid == k)) [
          | inl e ↦
              let same = (==_iff tid k).0 e in
              let at_k = subst (λ j. pos_of j m ≡ some offset) same here in
              let new_k = subst (λ j. find j entries ≡ none) same new in rw (e, new_k, at_k)
          | inr e ↦ rw e (elim (Option-cases (find k entries)) [ inl n ↦ rw n | inr (p, n) ↦ rw n ])
        ])

  gone_left : (k p : ℕ) → find k indexed ≡ some p → pos_of k left ≡ none
  gone_left k p e = rw (pos_left k) (elim (Bool-cases (tid == k)) [
    | inl b ↦ rw b
    | inr b ↦ rw b (h.gone k p (ground (arith, find-indexed k, e)))
  ])

  round-IsSorting : IsSorting m0 indexed left mid.task_sort × (length left < length m)
  round-IsSorting = (
    record {
      keyed = Keyed-erase tid mid.write_task_map kept.keyed;
      queue =
          Agrees-map mid.write_task_map left (λ k p e. erase-some k tid p mid.write_task_map e) _
            kept.queue;
      lookups = lookups_left;
      gone = gone_left;
      unique = Unique-append tid offset entries new h.unique;
      count = omega (arith, shorter, length-append entries ((tid, offset) ∷ []), h.count);
    },
    shorter,
  )
    where
      shorter : length left < length m
      shorter =
          omega (
            arith,
            length-erase tid mid.write_task_map offset (kept.positions tid ∙ here),
            kept.size,
          )

pub check_ends : (b : Bool) (e : Fault) → e ≢ out_of_fuel → check b e ≢ err out_of_fuel
unfolding check
check_ends true e h = λ p. cc
check_ends false e h = λ p. h (cc)

expect_ends : (o : Option TaskWrapper) (e : Fault) → e ≢ out_of_fuel → expect o e ≢ err out_of_fuel
unfolding expect
expect_ends none e h = λ p. h (cc)
expect_ends (some w) e h = λ p. cc

release_all_ends : (succs : List ℕ) (st : Sorting) → release_all succs st ≢ err out_of_fuel
unfolding release_all release
release_all_ends [] st = λ p. cc
release_all_ends (succ ∷ succs) st =
    >>=-ne-err out_of_fuel _ _
      (>>=-ne-err out_of_fuel _ _ (expect_ends _ stray_memory (λ p. cc)) (λ w e p. cc))
      (λ st' e. release_all_ends succs st')

index_task_ends : (tid : ℕ) (st : Sorting) → index_task tid st ≢ err out_of_fuel
unfolding index_task
index_task_ends tid st = >>=-ne-err out_of_fuel _ _ (expect_ends _ assertion (λ p. cc)) λ tw e.
    >>=-ne-err out_of_fuel _ _ (check_ends _ assertion (λ p. cc))
      λ u e'. >>=-ne-err out_of_fuel _ _ (release_all_ends tw.s st) (λ mid e'' p. cc)

module _ (m0 : WriteMap) where
  index_task-IsSorting :
      (entries : List (ℕ × ℕ)) (m : WriteMap) (q : List Ready) (start tid offset : ℕ) (st : Sorting)
      → IsSorting m0 entries m ((start, (tid, offset)) ∷ q)
      → index_task tid (record { write_task_map = m; task_sort = q }) ≡ ok st
      → IsSorting m0 (entries ++ ((tid, offset) ∷ [])) st.write_task_map st.task_sort
        × (length st.write_task_map < length m)
  unfolding index_task
  index_task-IsSorting entries m q start tid offset st h e =
      let (tw, found, e1) = >>=-eq-ok _ _ e in
      let (_, own, e2) = >>=-eq-ok _ _ e1 in
      let (mid, released, made) = >>=-eq-ok _ _ e2 in
      let at = expect-eq-ok _ _ found in
      subst
        (λ st.
          IsSorting m0 (entries ++ ((tid, offset) ∷ [])) st.write_task_map st.task_sort
          × (length st.write_task_map < length m))
        (ok_injective made)
        (round-IsSorting m0 entries m q start tid offset h tw at mid
          (release_all-Kept tw.s _ mid h.keyed h.queue.1 released))

  index_loop-IsSorting :
      (fuel : ℕ) (entries es : List (ℕ × ℕ)) (m : WriteMap) (q : List Ready)
      → IsSorting m0 entries m q
      → index_loop fuel entries m q ≡ ok es
      → (m' : WriteMap) × IsSorting m0 es m' []
  unfolding index_loop
  index_loop-IsSorting zero entries es m [] h e =
      (m, subst (λ es. IsSorting m0 es m []) (ok_injective e) h)
  index_loop-IsSorting (suc fuel) entries es m [] h e =
      (m, subst (λ es. IsSorting m0 es m []) (ok_injective e) h)
  index_loop-IsSorting zero entries es m (r ∷ q) h e = absurd (cc)
  index_loop-IsSorting (suc fuel) entries es m ((start, (tid, offset)) ∷ q) h e =
      let (st, round, rest) = >>=-eq-ok _ _ e in
      index_loop-IsSorting fuel _ es st.write_task_map st.task_sort
        (index_task-IsSorting entries m q start tid offset st h round).0 rest

  -- With more rounds than the map has entries the loop does not run out of them.
  index_loop_ends :
      (fuel : ℕ) (entries : List (ℕ × ℕ)) (m : WriteMap) (q : List Ready)
      → IsSorting m0 entries m q
      → length m < fuel
      → index_loop fuel entries m q ≢ err out_of_fuel
  unfolding index_loop
  index_loop_ends zero entries m q h f = absurd (omega arith)
  index_loop_ends (suc fuel) entries m [] h f = λ e. cc
  index_loop_ends (suc fuel) entries m ((start, (tid, offset)) ∷ q) h f =
      >>=-ne-err out_of_fuel _ _ (index_task_ends tid _) λ st e.
        let (h', shorter) = index_task-IsSorting entries m q start tid offset st h e in
        index_loop_ends fuel _ st.write_task_map st.task_sort h' (omega arith)

  IsSorting-start :
      (tw : TaskWrapper) → Keyed m0 → find 0 m0 ≡ some tw → IsSorting m0 [] m0 (ready tw ∷ [])
  unfolding find
  IsSorting-start tw keyed at = record {
    keyed = keyed;
    queue = (top, tt);
    lookups = λ k. refl;
    gone = λ k p e. cc;
    unique = tt;
    count = omega arith;
  }
    where
      top : Agrees m0 (ready tw)
      top = record {
        same = λ p h.
            some_injective (
              sym h ∙ ap (λ k. pos_of k m0) (Keyed-find 0 m0 tw keyed at) ∙ pos_of-find 0 m0 tw at);
      }

  pub sort_index_ends : Keyed m0 → sort_index m0 ≢ err out_of_fuel
  unfolding sort_index
  sort_index_ends keyed =
      >>=-ne-err out_of_fuel _ _ (expect_ends _ stray_memory (λ p. cc)) λ tw found.
        index_loop_ends (suc (length m0)) [] m0 (ready tw ∷ [])
          (IsSorting-start tw keyed (expect-eq-ok _ _ found)) (omega arith)

  -- No more entries are written than there are tasks.
  pub sort_index_le : (es : List (ℕ × ℕ)) → Keyed m0 → sort_index m0 ≡ ok es → length es ≤ length m0
  unfolding sort_index
  sort_index_le es keyed e =
      let (tw, found, looped) = >>=-eq-ok _ _ e in
      let start = IsSorting-start tw keyed (expect-eq-ok _ _ found) in
      let (m', h) = index_loop-IsSorting (suc (length m0)) [] es m0 _ start looped in
      omega (arith, h.count)

  pub sort_index_complete :
      (es : List (ℕ × ℕ))
      → Keyed m0
      → sort_index m0 ≡ ok es
      → length es ≡ length m0
      → Unique es × ((k : ℕ) → find k es ≡ pos_of k m0)
  unfolding sort_index
  sort_index_complete es keyed e all =
      let (tw, found, looped) = >>=-eq-ok _ _ e in
      let start = IsSorting-start tw keyed (expect-eq-ok _ _ found) in
      let (m', h) = index_loop-IsSorting (suc (length m0)) [] es m0 _ start looped in
      (h.unique, λ k. sym (or_else_left (find k es) m' k (omega (arith, h.count))) ∙ h.lookups k)
    where
      or_else_left :
          (o : Option ℕ) (m : WriteMap) (k : ℕ) → length m ≡ 0 → or_else o (pos_of k m) ≡ o
      or_else_left none [] k z = unfold pos_of in refl
      or_else_left (some p) m k z = refl
      or_else_left none (e ∷ m) k z = absurd (omega arith)
