-- ===== src/Middle/Joins.antt =====
-- middle/Context.cpp: a join is complete just when each context that it waits for has exited.
use syncd_sim.Base.{
  ℕ, suc, zero, Bool, true, false, List, [], ◌∷◌, ◌==◌, length, if◌then◌else◌, Option, none, some,
  ℤ, pos, pred_ℤ, get_or, ◌≡◌, ◌≢◌, refl, sym, ap, ◌∙◌, arith, Bool-cases, inl, inr, Option-cases,
  some_injective, Table, ==_iff,
}
use syncd_sim.Base.{erase}
use syncd_sim.Base.Effects.{ok, ok_injective}
use syncd_sim.Base.Effects.Results.{◌>>=◌, expect, >>=-eq-ok, expect-eq-ok}
use syncd_sim.TaskLib.Ids.{get_context_id}
use syncd_sim.TaskLib.Record.{Task}
use syncd_sim.Middle.Contexts.{
  TaskContext, child_exits, get_child_join, is_complete_join, succ_ℤ, more_joins, fewer_joins,
  is_positive_ℤ,
}

unfoldable pub drop_one : ℕ → List ℕ → List ℕ
drop_one c [] = []
drop_one c (d ∷ cs) = if d == c then cs else d ∷ drop_one c cs

unfoldable pub among : ℕ → List ℕ → Bool
among c [] = false
among c (d ∷ cs) = if d == c then true else among c cs

-- The runs of a context in which the join task at `tj`, with the number `id`, waits for the contexts
-- in a list; other joins start and end between, and it may be asked whether joins are complete.
pub data Waiting (tj id : ℕ) : List ℕ → TaskContext → Type 0 where
  start : (c : TaskContext) → c.join_count_map id ≡ none → Waiting tj id [] c
  joins :
      (cs : List ℕ) (ctid : ℕ) (t : Task) (c c' : TaskContext)
      → Waiting tj id cs c
      → among ctid cs ≡ false
      → c.store tj ≡ some t
      → t.task_id ≡ id
      → get_child_join ctid tj c ≡ ok c'
      → Waiting tj id (ctid ∷ cs) c'
  exits :
      (cs : List ℕ) (child : ℕ) (t : Task) (c c' : TaskContext)
      → Waiting tj id cs c
      → among (get_context_id child) cs ≡ true
      → c.store tj ≡ some t
      → t.task_id ≡ id
      → child_exits child c ≡ ok (some tj, c')
      → Waiting tj id (drop_one (get_context_id child) cs) c'
  others_join :
      (cs : List ℕ) (ctid p : ℕ) (t : Task) (c c' : TaskContext)
      → Waiting tj id cs c
      → c.store p ≡ some t
      → t.task_id ≢ id
      → get_child_join ctid p c ≡ ok c'
      → Waiting tj id cs c'
  others_exit :
      (cs : List ℕ) (child p : ℕ) (t : Task) (c c' : TaskContext)
      → Waiting tj id cs c
      → c.store p ≡ some t
      → t.task_id ≢ id
      → child_exits child c ≡ ok (some p, c')
      → Waiting tj id cs c'
  asks :
      (cs : List ℕ) (k : ℕ) (c : TaskContext)
      → Waiting tj id cs c
      → Waiting tj id cs (is_complete_join k c).1

length-drop_one :
    (c : ℕ) (cs : List ℕ) → among c cs ≡ true → suc (length (drop_one c cs)) ≡ length cs
unfolding drop_one among
length-drop_one c [] h = absurd (cc)
length-drop_one c (d ∷ cs) h = ground (arith, length-drop_one c cs)

get_child_join-counts :
    (ctid p : ℕ) (t : Task) (c c' : TaskContext)
    → c.store p ≡ some t
    → get_child_join ctid p c ≡ ok c'
    → c'.join_count_map ≡ more_joins t.task_id c.join_count_map
unfolding get_child_join expect ◌>>=◌
get_child_join-counts ctid p t c c' at e =
    ap (λ (c : TaskContext). c.join_count_map) (sym (ok_injective (rw at at e)))

child_exits-counts :
    (child p : ℕ) (t : Task) (c c' : TaskContext)
    → c.store p ≡ some t
    → child_exits child c ≡ ok (some p, c')
    → c'.join_count_map ≡ fewer_joins t.task_id c.join_count_map
unfolding child_exits
child_exits-counts child p t c c' at e = elim (Option-cases (c.join_map (get_context_id child))) [
  | inl nobody ↦ absurd (cc (rw (nobody, child_exits) at e))
  | inr (r, waits) ↦
      let (t', found, e1) = >>=-eq-ok _ _ (rw (waits, child_exits) at e) in
      let (u, checked, made) = >>=-eq-ok _ _ e1 in
      let is_p : r ≡ p =
        some_injective (ap (λ (x : Option ℕ × TaskContext). x.0) (ok_injective made)) in
      let same : t' ≡ t = some_injective (sym (expect-eq-ok _ _ found) ∙ ap c.store is_p ∙ at) in
      ap (λ (x : Option ℕ × TaskContext). x.1.join_count_map) (sym (ok_injective made))
      ∙ ap (λ (t : Task). fewer_joins t.task_id c.join_count_map) same
]

abbrev count_of : ℕ → TaskContext → ℤ
count_of id c = get_or (c.join_count_map id) (pos 0)

count-more :
    (id k : ℕ) (counts : Table ℤ)
    → get_or (more_joins k counts id) (pos 0)
      ≡ (if k == id then succ_ℤ (get_or (counts k) (pos 0)) else get_or (counts id) (pos 0))
count-more id k counts = elim (Bool-cases (k == id)) [ inl e ↦ rw e refl | inr e ↦ rw e refl ]

count-fewer :
    (id k : ℕ) (counts : Table ℤ)
    → get_or (fewer_joins k counts id) (pos 0)
      ≡ (if k == id then pred_ℤ (get_or (counts k) (pos 0)) else get_or (counts id) (pos 0))
count-fewer id k counts = elim (Bool-cases (k == id)) [ inl e ↦ rw e refl | inr e ↦ rw e refl ]

count-own_join :
    (id ctid p n : ℕ) (t : Task) (c c' : TaskContext)
    → c.store p ≡ some t
    → t.task_id ≡ id
    → get_child_join ctid p c ≡ ok c'
    → count_of id c ≡ pos n
    → count_of id c' ≡ pos (suc n)
unfolding succ_ℤ
count-own_join id ctid p n t c c' at own e h =
    ap (λ m. get_or (m id) (pos 0)) (get_child_join-counts ctid p t c c' at e)
    ∙ count-more id t.task_id c.join_count_map
    ∙ rw (own, (==_iff id id).1 refl, h) refl

count-own_exit :
    (id child p n : ℕ) (t : Task) (c c' : TaskContext)
    → c.store p ≡ some t
    → t.task_id ≡ id
    → child_exits child c ≡ ok (some p, c')
    → count_of id c ≡ pos (suc n)
    → count_of id c' ≡ pos n
count-own_exit id child p n t c c' at own e h =
    ap (λ m. get_or (m id) (pos 0)) (child_exits-counts child p t c c' at e)
    ∙ count-fewer id t.task_id c.join_count_map
    ∙ rw (own, (==_iff id id).1 refl, h) refl

differs : (a b : ℕ) → a ≢ b → (a == b) ≡ false
differs a b ne = ground (arith, ne)

-- A count that is taken out was not positive, and reads as 0 from then on.
count-is_complete_join :
    (id k n : ℕ) (c : TaskContext)
    → count_of id c ≡ pos n
    → count_of id (is_complete_join k c).1 ≡ pos n
unfolding is_complete_join
count-is_complete_join id k n c h = elim (Option-cases (c.join_count_map k)) [
  | inl absent ↦ rw (absent, is_complete_join) h
  | inr (m, there) ↦ elim (Bool-cases (is_positive_ℤ m)) [
    | inl more ↦ rw (there, is_complete_join, more) h
    | inr over ↦
        rw (there, is_complete_join, over)
          (elim (Bool-cases (k == id)) [
            | inl same ↦
                let k_id = (==_iff k id).0 same in
                let m_n : m ≡ pos n =
                  ap (λ o. get_or o (pos 0)) (sym there ∙ ap c.join_count_map k_id) ∙ h in
                rw same (none_left n (ap is_positive_ℤ (sym m_n) ∙ over))
            | inr other ↦ rw other h
          ])
  ]
]
  where
    none_left : (n : ℕ) → is_positive_ℤ (pos n) ≡ false → pos 0 ≡ pos n
    none_left zero h = refl
    none_left (suc n) h = absurd (cc)

-- The count of the join is that of the contexts, where a missing count is 0.
Waiting-count :
    {tj id : ℕ} {cs : List ℕ} {c : TaskContext}
    → Waiting tj id cs c
    → count_of id c ≡ pos (length cs)
unfolding is_complete_join
Waiting-count {id = id} (start c none_yet) = ap (λ o. get_or o (pos 0)) none_yet
Waiting-count {id = id} (joins cs ctid t c c' w new at own e) =
    count-own_join id ctid _ (length cs) t c c' at own e (Waiting-count w)
Waiting-count {id = id} (exits cs child t c c' w old at own e) =
    count-own_exit id child _ (length (drop_one (get_context_id child) cs)) t c c' at own e
      (Waiting-count w ∙ ap pos (sym (length-drop_one _ cs old)))
Waiting-count {id = id} (others_join cs ctid p t c c' w at other e) =
    ap (λ m. get_or (m id) (pos 0)) (get_child_join-counts ctid p t c c' at e)
    ∙ count-more id t.task_id c.join_count_map
    ∙ rw (differs t.task_id id other) (Waiting-count w)
Waiting-count {id = id} (others_exit cs child p t c c' w at other e) =
    ap (λ m. get_or (m id) (pos 0)) (child_exits-counts child p t c c' at e)
    ∙ count-fewer id t.task_id c.join_count_map
    ∙ rw (differs t.task_id id other) (Waiting-count w)
Waiting-count {id = id} (asks cs k c w) =
    count-is_complete_join id k (length cs) c (Waiting-count w)

-- Let a join task start with no count, let contexts join it (none that it waits for already) and
-- children of theirs exit, among joins and exits of other join tasks and questions whether joins
-- are complete. Then `isCompleteJoin` says that the join is complete just when the list of
-- contexts that it waits for is empty.
pub is_complete_join-Waiting :
    (tj id : ℕ) (cs : List ℕ) (c : TaskContext)
    → Waiting tj id cs c
    → (is_complete_join id c).0 ≡ (length cs == 0)
unfolding is_complete_join
is_complete_join-Waiting tj id cs c w = elim (Option-cases (c.join_count_map id)) [
  | inl absent ↦
      let zero_left : pos 0 ≡ pos (length cs) =
        ap (λ o. get_or o (pos 0)) (sym absent) ∙ Waiting-count w in
      rw (absent, is_complete_join) (ground (arith, zero_left))
  | inr (n, there) ↦
      let is : n ≡ pos (length cs) = ap (λ o. get_or o (pos 0)) (sym there) ∙ Waiting-count w in
      rw (there, is_complete_join, is) (by_size cs)
]
  where
    by_size :
        (cs : List ℕ)
        → (if◌then◌else◌ {A = Bool × TaskContext}
            (is_positive_ℤ (pos (length cs)))
            (false, c)
            (true, record c { join_count_map = erase c.join_count_map id })).0
          ≡ (length cs == 0)
    by_size [] = refl
    by_size (k ∷ ks) = ground arith
