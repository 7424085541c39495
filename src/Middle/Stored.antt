-- ===== src/Middle/Stored.antt =====
-- What the loop of middle/taskWrite.cpp over the queued tasks has written: every task stands at the
-- position that the map gives for it.
use syncd_sim.Base.{
  ℕ, ◌<◌, ◌≤◌, ◌^◌, true, false, List, [], ◌∷◌, ◌++◌, ◌==◌, length, length-append, append_assoc,
  append_nil, drop, if◌then◌else◌, Option, none, some, ◌≡◌, refl, sym, ap, ◌∙◌, arith, All,
  All-append, Bool-cases, inl, inr, ==_iff, subst,
}
use syncd_sim.Base.Effects.{ok, ok_injective}
use syncd_sim.Base.Effects.Results.{>>=-eq-ok, check-eq-ok}
use syncd_sim.TaskLib.Record.{Task}
use syncd_sim.TaskLib.Codec.{Zlib, Restores, read_contech_task, write_contech_task}
use syncd_sim.TaskLib.Graph.{returned}
use syncd_sim.TaskLib.RoundTrip.{
  IsTask, IsShort, IsRoomy, task_record, write_contech_task_appends, write_contech_task_grows,
  read_contech_task-write_contech_task,
}
use syncd_sim.Middle.Writer.{
  TaskWrapper, WriteMap, Written, find, wrap, is_absent, write_task, write_tasks, write_chunks,
}
use syncd_sim.Middle.Places.{pos_of, Keyed}

-- A task that can be stored.
pub record IsStorable (z : Zlib) (t : Task) : Type 0 where
  pub task : IsTask t
  pub short : IsShort t
  pub roomy : IsRoomy z t

-- The task with a number.
unfoldable pub find_task : ℕ → List Task → Option Task
find_task k [] = none
find_task k (t ∷ ts) = if t.task_id == k then some t else find_task k ts

pub find_task-IsWord :
    (z : Zlib) (k : ℕ) (ts : List Task) (t : Task)
    → find_task k ts ≡ some t
    → All (IsStorable z) ts
    → k < 2 ^ 64
unfolding find_task
find_task-IsWord z k [] t e h = cc
find_task-IsWord z k (u ∷ ts) t e h = elim (Bool-cases (u.task_id == k)) [
  | inl same ↦ subst (λ k. k < 2 ^ 64) ((==_iff u.task_id k).0 same) h.0.task.id
  | inr other ↦ find_task-IsWord z k ts t (rw other at e) h.1
]

find_task-append_one :
    (k : ℕ) (ts : List Task) (t : Task)
    → find_task k ts ≡ none
    → find_task k (ts ++ (t ∷ [])) ≡ (if t.task_id == k then some t else none)
unfolding find_task
find_task-append_one k [] t h = refl
find_task-append_one k (u ∷ ts) t h = ground (arith, find_task-append_one k ts t)

find_task-append_other :
    (k : ℕ) (ts : List Task) (t : Task)
    → (t.task_id == k) ≡ false
    → find_task k (ts ++ (t ∷ [])) ≡ find_task k ts
unfolding find_task
find_task-append_other k [] t h = rw h
find_task-append_other k (u ∷ ts) t h = ground (arith, find_task-append_other k ts t)

pos_of-append_one :
    (k j : ℕ) (m : WriteMap) (w : TaskWrapper)
    → pos_of k m ≡ none
    → pos_of k (m ++ ((j, w) ∷ [])) ≡ (if j == k then some w.write_pos else none)
unfolding pos_of
pos_of-append_one k j [] w h = refl
pos_of-append_one k j ((i, v) ∷ m) w h = ground (arith, pos_of-append_one k j m w)

pos_of-append_other :
    (k j : ℕ) (m : WriteMap) (w : TaskWrapper)
    → (j == k) ≡ false
    → pos_of k (m ++ ((j, w) ∷ [])) ≡ pos_of k m
unfolding pos_of
pos_of-append_other k j [] w h = rw h
pos_of-append_other k j ((i, v) ∷ m) w h = ground (arith, pos_of-append_other k j m w)

pos_of-absent : (k : ℕ) (m : WriteMap) → is_absent (find k m) ≡ true → pos_of k m ≡ none
unfolding pos_of find
pos_of-absent k [] h = refl
pos_of-absent k ((j, w) ∷ m) h = ground (arith, pos_of-absent k m)

-- The tasks of all chunks, in order.
unfoldable pub concat : List (List Task) → List Task
concat [] = []
concat (c ∷ cs) = c ++ concat cs

module _ (z : Zlib) where
  -- Behind `base` the file has the task at `p`, whatever is written behind the end.
  pub record At (base : ℕ) (out : List ℕ) (p : ℕ) (t : Task) : Type 0 where
    pub after_base : base ≤ p
    pub before_end : p < length out
    pub reads :
        (more : List ℕ) → returned (read_contech_task z (drop p (out ++ more))) ≡ ok (some t)

  -- A position and a task that belong together, or neither.
  abbrev pub IsStored : ℕ → List ℕ → Option ℕ → Option Task → Type 0
  IsStored base out none none = Unit
  IsStored base out (some p) (some t) = At base out p t
  IsStored base out none (some t) = ⊥
  IsStored base out (some p) none = ⊥

  IsStored-append :
      (base : ℕ) (out more : List ℕ) (p : Option ℕ) (t : Option Task)
      → IsStored base out p t
      → IsStored base (out ++ more) p t
  IsStored-append base out more none none h = tt
  IsStored-append base out more none (some t) h = h
  IsStored-append base out more (some p) none h = h
  IsStored-append base out more (some p) (some t) h = record {
    after_base = h.after_base;
    before_end = omega (arith, h.before_end, length-append out more);
    reads = λ rest. rw (append_assoc out more rest) (h.reads (more ++ rest));
  }

  IsStored-none :
      (base : ℕ) (out : List ℕ) (p : Option ℕ) (t : Option Task)
      → IsStored base out p t
      → p ≡ none
      → t ≡ none
  IsStored-none base out none none h e = refl
  IsStored-none base out none (some t) h e = elim h [ ]
  IsStored-none base out (some p) t h e = cc

  -- What has been written of `ts`.
  pub record IsWritten (start : List ℕ) (ts : List Task) (w : Written) : Type 0 where
    pub grown : (tail : List ℕ) × (w.out ≡ start ++ tail)
    pub keyed : Keyed w.write_task_map
    pub size : length w.write_task_map ≡ length ts
    pub stored :
        (k : ℕ) → IsStored (length start) w.out (pos_of k w.write_task_map) (find_task k ts)

  pub IsWritten-start :
      (start : List ℕ) → IsWritten start [] (record { out = start; write_task_map = [] })
  unfolding pos_of find_task
  IsWritten-start start = record {
    grown = ([], sym (append_nil start));
    keyed = tt;
    size = refl;
    stored = λ k. tt;
  }

  -- One write.
  module _ (restores : Restores z) (start : List ℕ) (ts : List Task) (w : Written)
      (h : IsWritten start ts w) (t : Task) (storable : IsStorable z t)
      (absent : is_absent (find t.task_id w.write_task_map) ≡ true) (n : ℕ) (out : List ℕ)
      (write : write_contech_task z t w.out ≡ ok (n, out)) where
    abbrev later : WriteMap
    later = w.write_task_map ++ ((t.task_id, wrap t (length w.out)) ∷ [])

    extended : out ≡ w.out ++ task_record z restores t storable.task storable.short storable.roomy
    extended =
        (write_contech_task_appends z restores t storable.task storable.short storable.roomy w.out
          out n write).0

    At-write : At (length start) out (length w.out) t
    unfolding returned
    At-write = record {
      after_base = omega (arith, ap length h.grown.1, length-append start h.grown.0);
      before_end =
          write_contech_task_grows z restores t storable.task storable.short storable.roomy w.out
            out n write;
      reads = λ more. ap returned (
          read_contech_task-write_contech_task z restores t storable.task storable.short
            storable.roomy w.out out more n write);
    }

    IsStored-later :
        (k : ℕ) → IsStored (length start) out (pos_of k later) (find_task k (ts ++ (t ∷ [])))
    unfolding wrap
    IsStored-later k = elim (Bool-cases (t.task_id == k)) [
      | inl e ↦
          let same = (==_iff t.task_id k).0 e in
          let free =
            subst (λ k. pos_of k w.write_task_map ≡ none) same (pos_of-absent _ _ absent) in
          let new = IsStored-none (length start) w.out _ _ (h.stored k) free in
          rw
            (
              pos_of-append_one k t.task_id _ (wrap t (length w.out)) free,
              find_task-append_one k ts t new,
              e,
            )
            At-write
      | inr e ↦
          rw
            (
              pos_of-append_other k t.task_id w.write_task_map (wrap t (length w.out)) e,
              find_task-append_other k ts t e,
              extended,
            )
            (IsStored-append (length start) w.out _ _ _ (h.stored k))
    ]

    IsWritten-later :
        IsWritten start (ts ++ (t ∷ [])) (record { out = out; write_task_map = later })
    unfolding wrap
    IsWritten-later = record {
      grown = (
        h.grown.0 ++ task_record z restores t storable.task storable.short storable.roomy,
        extended
            ∙ ap (λ xs. xs ++ task_record z restores t storable.task storable.short storable.roomy)
                h.grown.1
            ∙ append_assoc start h.grown.0 _,
      );
      keyed = All-append _ w.write_task_map _ h.keyed (refl, tt);
      size = omega (
        arith,
        length-append w.write_task_map ((t.task_id, wrap t (length w.out)) ∷ []),
        length-append ts (t ∷ []),
        h.size,
      );
      stored = IsStored-later;
    }

  module _ (restores : Restores z) (start : List ℕ) where
    write_task-IsWritten :
        (ts : List Task) (t : Task) (w w' : Written)
        → IsWritten start ts w
        → IsStorable z t
        → write_task z t w ≡ ok w'
        → IsWritten start (ts ++ (t ∷ [])) w'
    unfolding write_task
    write_task-IsWritten ts t w w' h storable e =
        let (_, checked, e1) = >>=-eq-ok _ _ e in
        let ((n, out), write, made) = >>=-eq-ok _ _ e1 in
        subst (IsWritten start (ts ++ (t ∷ []))) (ok_injective made)
          (IsWritten-later restores start ts w h t storable (check-eq-ok _ _ checked) n out write)

    write_tasks-IsWritten :
        (ts more : List Task) (w w' : Written)
        → IsWritten start ts w
        → All (IsStorable z) more
        → write_tasks z more w ≡ ok w'
        → IsWritten start (ts ++ more) w'
    unfolding write_tasks
    write_tasks-IsWritten ts [] w w' h a e =
        rw (append_nil ts) (subst (IsWritten start ts) (ok_injective e) h)
    write_tasks-IsWritten ts (t ∷ more) w w' h a e =
        let (mid, first, rest) = >>=-eq-ok _ _ e in
        rw (append_assoc ts (t ∷ []) more) at (
          write_tasks-IsWritten (ts ++ (t ∷ [])) more mid w'
            (write_task-IsWritten ts t w mid h a.0 first) a.1 rest)

    pub write_chunks-IsWritten :
        (ts : List Task) (chunks : List (List Task)) (w w' : Written)
        → IsWritten start ts w
        → All (All (IsStorable z)) chunks
        → write_chunks z chunks w ≡ ok w'
        → IsWritten start (ts ++ concat chunks) w'
    unfolding write_chunks concat
    write_chunks-IsWritten ts [] w w' h a e =
        rw (append_nil ts) (subst (IsWritten start ts) (ok_injective e) h)
    write_chunks-IsWritten ts (c ∷ cs) w w' h a e =
        let (mid, first, rest) = >>=-eq-ok _ _ e in
        rw (append_assoc ts c (concat cs)) at (
          write_chunks-IsWritten (ts ++ c) cs mid w' (write_tasks-IsWritten ts c w mid h a.0 first)
            a.1 rest)
