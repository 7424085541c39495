-- ===== src/Middle/Barrier/Search.antt =====
-- The loop of onEnter in middle/BarrierWrapper.cpp over the barriers that are being left.
use syncd_sim.Base.{
  ℕ, Bool, true, false, List, [], ◌∷◌, ◌++◌, if◌then◌else◌, Option, none, some, Table, ◌≡◌, ◌≢◌,
  sym, ap, ◌∙◌, subst, arith, All, Bool-cases, ◌⊎◌, inl, inr, some_injective,
}
use syncd_sim.Base.Effects.{ok, ok_injective}
use syncd_sim.Base.Effects.Results.{>>=-eq-ok, expect-eq-ok}
use syncd_sim.TaskLib.Ids.{get_context_id}
use syncd_sim.TaskLib.Record.{Task}
use syncd_sim.Middle.Barrier.{has_context, enter_loop, exit_to_join}

module _ (cid : ℕ) (tasks : Table Task) where
  -- The exit that the context has not arrived at, and before which it has arrived at all.
  abbrev pub Joins : List ℕ → Option ℕ → Type 0
  Joins [] o = o ≡ none
  Joins (q ∷ qs) o =
      (t : Task) × (tasks q ≡ some t)
      × (((has_context cid t.predecessors ≡ false) × (o ≡ some q))
          ⊎ ((has_context cid t.predecessors ≡ true) × Joins qs o))

  pub enter_loop-Joins :
      (ps : List ℕ) (last q : ℕ) (r : Bool)
      → enter_loop cid tasks true last ps ≡ ok (r, q)
      → Joins ps (if r then none else some q)
  unfolding enter_loop
  enter_loop-Joins [] last q r e = ground arith
  enter_loop-Joins (p ∷ ps) last q r e =
      let (t, found, rest) = >>=-eq-ok _ _ e in
      (
        t,
        expect-eq-ok _ _ found,
        elim (Bool-cases (has_context cid t.predecessors)) [
          | inl here ↦ inr (here, enter_loop-Joins ps p q r (rw here at rest))
          | inr away ↦
              let made : ok (false, p) ≡ ok (r, q) = rw away at rest in
              inl (away, ground (arith, ok_injective made))
        ],
      )

  pub exit_to_join-Joins :
      (ps : List ℕ) (o : Option ℕ) → exit_to_join cid tasks ps ≡ ok o → Joins ps o
  unfolding exit_to_join enter_loop
  exit_to_join-Joins [] o e = sym (ok_injective e)
  exit_to_join-Joins (p ∷ ps) o e =
      let ((r, q), looped, made) = >>=-eq-ok _ _ e in
      subst (Joins (p ∷ ps)) (ok_injective made) (enter_loop-Joins (p ∷ ps) 0 q r looped)

  -- The context is outside of the exits: it has left each that it has arrived at, and no other.
  abbrev pub IsOutside : List ℕ → Type 0
  IsOutside = All (λ q.
      (t : Task) → tasks q ≡ some t → has_context cid t.successors ≡ has_context cid t.predecessors)

pub has_context-append :
    (cid : ℕ) (xs : List ℕ) (id : ℕ)
    → get_context_id id ≡ cid
    → has_context cid (xs ++ (id ∷ [])) ≡ true
unfolding has_context
has_context-append cid [] id e = ground (arith, e)
has_context-append cid (x ∷ xs) id e = ground (arith, has_context-append cid xs id e)

-- The exit that is joined.
module _ (cid : ℕ) (tasks : Table Task) where
  pub Joins-some :
      (ps : List ℕ) (p : ℕ)
      → Joins cid tasks ps (some p)
      → IsOutside cid tasks ps
      → (arriving : ℕ) → All (λ q. q ≢ arriving) ps
      → (t : Task) × (tasks p ≡ some t)
        × (has_context cid t.predecessors ≡ false)
        × (has_context cid t.successors ≡ false)
        × (arriving ≢ p)
  Joins-some [] p j o arriving apart = absurd (cc)
  Joins-some (q ∷ ps) p (t, at, inl (away, some_q)) o arriving apart =
      let is : p ≡ q = some_injective some_q in
      (t, ap tasks is ∙ at, away, o.0 t at ∙ away, λ e. apart.0 (sym is ∙ sym e))
  Joins-some (q ∷ ps) p (t, at, inr (here, j)) o arriving apart =
      Joins-some ps p j o.1 arriving apart.1

  pub Joins-resolved :
      (ps : List ℕ) (fresh : ℕ)
      → Joins cid tasks ps none
      → tasks fresh ≡ none
      → All (λ q. q ≢ fresh) ps
  Joins-resolved [] fresh j unused = tt
  Joins-resolved (q ∷ ps) fresh (t, at, inl (away, some_q)) unused = absurd (cc)
  Joins-resolved (q ∷ ps) fresh (t, at, inr (here, j)) unused =
      (λ is. absurd (cc (at, unused, is)), Joins-resolved ps fresh j unused)

pub All-with {κ μ} :
    (P : ℕ → Type κ) (Q : ℕ → Type μ) → ((q : ℕ) → P q → Q q) → (qs : List ℕ) → All P qs → All Q qs
All-with P Q f [] h = tt
All-with P Q f (q ∷ qs) h = (f q h.0, All-with P Q f qs h.1)
