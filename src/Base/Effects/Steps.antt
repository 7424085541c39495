-- ===== src/Base/Effects/Steps.antt =====
-- A program that returns, followed one statement at a time.
use mathlib.Core.Path.{◌≡◌, refl, ap, ◌∙◌}
use mathlib.Core.Bool.{Bool, true, false}
use syncd_sim.Base.Tests.{if◌then◌else◌}
use syncd_sim.Base.Effects.{Fault, ok, err, Exec, require, pure, ◌>>=◌, ◌>>◌}

-- From `s` the program returns `a` and leaves `t`.
pub record Runs {S A : Type 0} (m : Exec S A) (s : S) (a : A) (t : S) : Type 0 where
  pub result : m s ≡ ok (a, t)

module _ {S A B : Type 0} where
  pub Runs-bind :
      {m : Exec S A} (f : A → Exec S B) {s t u : S} {a : A} {b : B}
      → Runs m s a t
      → Runs (f a) t b u
      → Runs (m >>= f) s b u
  unfolding ◌>>=◌
  Runs-bind {m} f {s} {t} {u} {a} h k = record {
    result = ap (λ r. elim r [ ok (x, y) ↦ f x y | err e ↦ err e ]) h.result ∙ k.result;
  }

module _ {S A : Type 0} where
  pub Runs-pure : (a : A) (s : S) → Runs (pure a) s a s
  Runs-pure a s = record { result = refl }

  pub Runs-if_true :
      (b : Bool) {m : Exec S A} (n : Exec S A) {s t : S} {a : A}
      → b ≡ true
      → Runs m s a t
      → Runs (if b then m else n) s a t
  Runs-if_true true n h k = k
  Runs-if_true false n h k = cc

  pub Runs-if_false :
      (b : Bool) (m : Exec S A) {n : Exec S A} {s t : S} {a : A}
      → b ≡ false
      → Runs n s a t
      → Runs (if b then m else n) s a t
  Runs-if_false false m h k = k
  Runs-if_false true m h k = cc

  pub Runs-require :
      (b : Bool) (e : Fault) {k : Exec S A} {s t : S} {a : A}
      → b ≡ true
      → Runs k s a t
      → Runs (require b e >> k) s a t
  Runs-require true e h k = Runs-bind _ (record { result = refl }) k
  Runs-require false e h k = cc
