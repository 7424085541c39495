-- ===== src/Middle/Indexed.antt =====
-- The index that middle/taskWrite.cpp writes is what initTaskIndex of common/taskLib/TaskGraph.cpp
-- reads.
use syncd_sim.Base.{
  ℕ, ◌+◌, ◌^◌, ◌<◌, ◌≤◌, List, [], ◌∷◌, ◌++◌, ◌==◌, length, length-append, append_assoc,
  if◌then◌else◌, Option, none, some, ◌≡◌, refl, sym, ◌∙◌, arith, All, Bool-cases, inl, inr, ==_iff,
  ==_refl, lt→ltb, subst, assign,
}
use syncd_sim.Base.Effects.{out_of_fuel, assertion}
use syncd_sim.Base.Effects.Steps.{Runs, Runs-bind, Runs-pure, Runs-require}
use syncd_sim.TaskLib.Bytes.{to_bytes, length-to_bytes}
use syncd_sim.TaskLib.Graph.{Index, add_entry, read_entries, no_entries, init_task_index}
use syncd_sim.TaskLib.InfoTrip.{Runs-read_zeroed, Runs-read_word}
use syncd_sim.Middle.Writer.{find, put_entries}
use syncd_sim.Middle.Sorted.{Unique, or_else}

-- The numbers of an entry fit their types, and its position is before the index.
abbrev pub Fits : ℕ → List (ℕ × ℕ) → Type 0
Fits off = All (λ (e : ℕ × ℕ). (e.0 < 2 ^ 64) × (e.1 < 2 ^ 64) × (e.1 < off))

-- What the look-ups of a list find holds of all its entries.
pub All-find {κ} :
    (P : ℕ × ℕ → Type κ) (es : List (ℕ × ℕ))
    → Unique es
    → ((k p : ℕ) → find k es ≡ some p → P (k, p))
    → All P es
unfolding find
All-find P [] u h = tt
All-find P ((k, p) ∷ es) u h =
    (h k p (rw (==_refl k)), All-find P es u.1 (λ j q e. h j q (other j q e)))
  where
    other : (j q : ℕ) → find j es ≡ some q → find j ((k, p) ∷ es) ≡ some q
    other j q e = elim (Bool-cases (k == j)) [
      | inl same ↦
          let found = subst (λ i. find i es ≡ some q) (sym ((==_iff k j).0 same)) e in cc (u.0)
      | inr different ↦ rw different e
    ]

find-cons :
    (k p j : ℕ) (es : List (ℕ × ℕ)) → find j ((k, p) ∷ es) ≡ (if k == j then some p else find j es)
unfolding find
find-cons k p j es = refl

-- What the loop leaves after reading `es`.
pub record IsRead (ix : Index) (es : List (ℕ × ℕ)) (ix' : Index) : Type 0 where
  pub lookups : (k : ℕ) → ix'.task_idx k ≡ or_else (ix.task_idx k) (find k es)
  pub order : length ix'.task_order ≡ length ix.task_order + length es

IsRead-cons :
    (ix ix' : Index) (k p : ℕ) (es : List (ℕ × ℕ))
    → ix.task_idx k ≡ none
    → IsRead (add_entry k p ix) es ix'
    → IsRead ix ((k, p) ∷ es) ix'
unfolding add_entry
IsRead-cons ix ix' k p es absent h = record {
  lookups = λ j. h.lookups j ∙ merged j;
  order = omega (arith, h.order, length-append ix.task_order (p ∷ []));
}
  where
    merged :
        (j : ℕ)
        → or_else (assign ix.task_idx k p j) (find j es)
          ≡ or_else (ix.task_idx j) (find j ((k, p) ∷ es))
    merged j = elim (Bool-cases (k == j)) [
      | inl e ↦
          let none_j = subst (λ i. ix.task_idx i ≡ none) ((==_iff k j).0 e) absent in
          rw (find-cons k p j es, e, none_j)
      | inr e ↦ rw (find-cons k p j es, e)
    ]

or_else-none : (o : Option ℕ) → or_else o none ≡ o
or_else-none none = refl
or_else-none (some p) = refl

-- The entries behind the first one are still absent when it has been added.
absent_behind :
    (ix : Index) (k p : ℕ) (es : List (ℕ × ℕ))
    → find k es ≡ none
    → ((j q : ℕ) → find j ((k, p) ∷ es) ≡ some q → ix.task_idx j ≡ none)
    → (j q : ℕ) → find j es ≡ some q
    → (add_entry k p ix).task_idx j ≡ none
unfolding add_entry
absent_behind ix k p es only h j q e = elim (Bool-cases (k == j)) [
  | inl same ↦
      let found = subst (λ i. find i es ≡ some q) (sym ((==_iff k j).0 same)) e in cc (only)
  | inr other ↦ rw other (h j q (find-cons k p j es ∙ rw other e))
]

Runs-read_entries :
    (off : ℕ) (es : List (ℕ × ℕ)) (ix : Index) (rest : List ℕ)
    → Fits off es
    → Unique es
    → ((k p : ℕ) → find k es ≡ some p → ix.task_idx k ≡ none)
    → (ix' : Index) × Runs (read_entries off (length es) ix) (put_entries es ++ rest) ix' rest
      × IsRead ix es ix'
unfolding read_entries put_entries find
Runs-read_entries off [] ix rest f u h = (
  ix,
  Runs-pure ix rest,
  record { lookups = λ k. sym (or_else-none (ix.task_idx k)); order = omega arith },
)
Runs-read_entries off ((k, p) ∷ es) ix rest f u h =
    let absent = h k p (find-cons k p k es ∙ rw (==_refl k)) in
    let (ix', run, read) =
      Runs-read_entries off es (add_entry k p ix) rest f.1 u.1 (absent_behind ix k p es u.0 h) in
    (
      ix',
      rw
          (
            append_assoc (to_bytes 8 k) (to_bytes 8 p ++ put_entries es) rest,
            append_assoc (to_bytes 8 p) (put_entries es) rest,
          )
          (Runs-bind _ (Runs-read_zeroed 8 k _ f.0.0) (
            Runs-bind _ (Runs-read_word 8 p _ f.0.1) (
              Runs-require _ assertion (lt→ltb _ _ f.0.2)
                (Runs-require _ assertion (rw absent) run)))),
      IsRead-cons ix ix' k p es absent read,
    )

pub Runs-init_task_index :
    (off : ℕ) (es : List (ℕ × ℕ)) (rest : List ℕ)
    → Fits off es
    → Unique es
    → length es < 2 ^ 32
    → (ix : Index) × Runs
        (init_task_index off)
        (to_bytes 8 (length es) ++ (put_entries es ++ rest))
        ix
        rest
      × IsRead no_entries es ix
unfolding init_task_index
Runs-init_task_index off es rest f u small =
    let (ix, run, read) = Runs-read_entries off es no_entries rest f u (λ k p e. refl) in
    let counted = lt→ltb (length es) (2 ^ 32) small in
    (
      ix,
      Runs-bind _ (Runs-read_word 8 (length es) _ (omega arith))
          (rw counted (Runs-bind _ run (Runs-require _ out_of_fuel refl (Runs-pure ix rest)))),
      read,
    )

pub length-put_entries : (es : List (ℕ × ℕ)) → length es ≤ length (put_entries es)
unfolding put_entries
length-put_entries [] = omega arith
length-put_entries ((k, p) ∷ es) = omega (
  arith,
  length-append (to_bytes 8 k) (to_bytes 8 p ++ put_entries es),
  length-append (to_bytes 8 p) (put_entries es),
  length-to_bytes 8 k,
  length-put_entries es,
)
