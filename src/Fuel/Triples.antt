-- ===== src/Fuel/Triples.antt =====
-- From a state with `P` a program either returns, with `Q` of its value and state, or stops with a
-- fault that is not the model's.
use syncd_sim.Base.{◌≡◌, refl, Bool, true, false, if◌then◌else◌, List, [], ◌∷◌}
use syncd_sim.Base.Effects.{
  Fault, Result, ok, err, Exec, pure, fail, gets, require, assertion, ◌>>=◌, ◌>>◌,
}
use syncd_sim.Handler.{Handled, done, in_service, still_blocked}
use syncd_sim.Fuel.{IsReal}

module _ {S A : Type 0} where
  abbrev pub Outcome : (A → S → Type 0) → Result (A × S) → Type 0
  Outcome Q (ok p) = Q p.0 p.1
  Outcome Q (err e) = IsReal e

  pub record Gives (P : S → Type 0) (m : Exec S A) (Q : A → S → Type 0) : Type 0 where
    pub apply : (s : S) → P s → Outcome Q (m s)

  module _ {P : S → Type 0} {Q : A → S → Type 0} where
    pub Gives-if :
        (b : Bool) {m n : Exec S A}
        → (b ≡ true → Gives P m Q)
        → (b ≡ false → Gives P n Q)
        → Gives P (if b then m else n) Q
    Gives-if true hm hn = hm refl
    Gives-if false hm hn = hn refl

    pub Gives-fail : (e : Fault) → IsReal e → Gives P (fail e) Q
    Gives-fail e h = record { apply = λ s p. h }

    -- What holds before may be weakened.
    pub Gives-from :
        {P' : S → Type 0} {m : Exec S A} → ((s : S) → P' s → P s) → Gives P m Q → Gives P' m Q
    Gives-from h g = record { apply = λ s p. g.apply s (h s p) }

    -- A fact that every such state implies may be used.
    pub Gives-given :
        (fact : Type 0) {m : Exec S A} → ((s : S) → P s → fact) → (fact → Gives P m Q) → Gives P m Q
    Gives-given fact h g = record { apply = λ s p. (g (h s p)).apply s p }

    pub Gives-handled :
        (r : Handled) {k l n : Exec S A}
        → Gives P k Q
        → Gives P l Q
        → Gives P n Q
        → Gives P (elim r [ done ↦ k | in_service ↦ l | still_blocked ↦ n ]) Q
    Gives-handled done hk hl hn = hk
    Gives-handled in_service hk hl hn = hl
    Gives-handled still_blocked hk hl hn = hn

    pub Gives-list :
        {B : Type 0} (q : List B) {n : Exec S A} {f : B → List B → Exec S A}
        → (q ≡ [] → Gives P n Q)
        → ((b : B) (rest : List B) → q ≡ b ∷ rest → Gives P (f b rest) Q)
        → Gives P (elim q [ [] ↦ n | b ∷ rest ↦ f b rest ]) Q
    Gives-list [] hn hf = hn refl
    Gives-list (b ∷ rest) hn hf = hf b rest refl

module _ {S A B : Type 0} {Q : A → S → Type 0} {R : B → S → Type 0} where
  after :
      (r : Result (A × S)) (f : A → Exec S B)
      → Outcome Q r
      → ((a : A) → Gives (Q a) (f a) R)
      → Outcome R (elim r [ ok (a, t) ↦ f a t | err e ↦ err e ])
  after (ok (a, t)) f h k = (k a).apply t h
  after (err e) f h k = h

  pub Gives-bind :
      {P : S → Type 0} {m : Exec S A} {f : A → Exec S B}
      → Gives P m Q
      → ((a : A) → Gives (Q a) (f a) R)
      → Gives P (m >>= f) R
  unfolding ◌>>=◌
  Gives-bind {P} {m} {f} h k = record { apply = λ s p. after (m s) f (h.apply s p) k }

module _ {S : Type 0} {P : S → Type 0} where
  -- A statement that keeps what holds, and what follows it.
  pub Gives-then :
      {B : Type 0} {R : B → S → Type 0} {m : Exec S (Unit {0})} {k : Exec S B}
      → Gives P m (λ _. P)
      → Gives P k R
      → Gives P (m >> k) R
  Gives-then h g = Gives-bind h (λ _. g)

  pub Gives-require : (b : Bool) → Gives P (require b assertion) (λ _. P)
  Gives-require true = record { apply = λ s p. p }
  Gives-require false = record { apply = λ s p. (λ e. cc) }

  pub Gives-pure : {A : Type 0} (a : A) → Gives P (pure a) (λ _. P)
  Gives-pure a = record { apply = λ s p. p }

  pub Gives-gets : {A : Type 0} (f : S → A) → Gives P (gets f) (λ _. P)
  Gives-gets f = record { apply = λ s p. p }
