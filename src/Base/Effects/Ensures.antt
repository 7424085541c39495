-- ===== src/Base/Effects/Ensures.antt =====
-- Run from a state with the invariant `I`, a program that returns keeps `I` and gives a value with
-- `Q`, and one that stops stops with a fault of `E`. There is a rule for each construct.
use mathlib.Core.Path.{◌≡◌, refl}
use mathlib.Core.Bool.{Bool, true, false}
use syncd_sim.Base.Tests.{if◌then◌else◌}
use syncd_sim.Base.Effects.{Fault, Result, ok, err, Exec, pure, fail, gets, require, modify, ◌>>=◌}

module _ {S : Type 0} (I : S → Type 0) (E : Fault → Type 0) where
  abbrev pub Holds : {A : Type 0} → (A → Type 0) → Result (A × S) → Type 0
  Holds Q (ok p) = Q p.0 × I p.1
  Holds Q (err e) = E e

  pub record Ensures {A : Type 0} (Q : A → Type 0) (m : Exec S A) : Type 0 where
    pub apply : (s : S) → I s → Holds Q (m s)

  module _ {A : Type 0} (Q : A → Type 0) where
    pub Ensures-pure : (a : A) → Q a → Ensures Q (pure a)
    Ensures-pure a q = record { apply = λ s i. (q, i) }

    pub Ensures-fail : (e : Fault) → E e → Ensures Q (fail e)
    Ensures-fail e h = record { apply = λ s i. h }

    pub Ensures-gets : (f : S → A) → ((s : S) → I s → Q (f s)) → Ensures Q (gets f)
    Ensures-gets f h = record { apply = λ s i. (h s i, i) }

    pub Ensures-if :
        (b : Bool) {m n : Exec S A}
        → (b ≡ true → Ensures Q m)
        → (b ≡ false → Ensures Q n)
        → Ensures Q (if b then m else n)
    Ensures-if true hm hn = hm refl
    Ensures-if false hm hn = hn refl

  pub Ensures-require :
      (b : Bool) (e : Fault) → E e → Ensures {A = Unit} (λ _. b ≡ true) (require b e)
  Ensures-require true e h = record { apply = λ s i. (refl, i) }
  Ensures-require false e h = record { apply = λ s i. h }

  pub Ensures-modify :
      (f : S → S) → ((s : S) → I s → I (f s)) → Ensures {A = Unit} (λ _. Unit) (modify f)
  Ensures-modify f h = record { apply = λ s i. (tt, h s i) }

  module _ {A B : Type 0} {Q : A → Type 0} {R : B → Type 0} where
    after :
        (r : Result (A × S)) (f : A → Exec S B)
        → Holds Q r
        → ((a : A) → Q a → Ensures R (f a))
        → Holds R (elim r [ ok (a, t) ↦ f a t | err e ↦ err e ])
    after (ok (a, t)) f h k = (k a h.0).apply t h.1
    after (err e) f h k = h

    pub Ensures-bind :
        {m : Exec S A} {f : A → Exec S B}
        → Ensures Q m
        → ((a : A) → Q a → Ensures R (f a))
        → Ensures R (m >>= f)
    unfolding ◌>>=◌
    Ensures-bind {m} {f} h k = record { apply = λ s i. after (m s) f (h.apply s i) k }
