-- ===== src/Base/Effects/Results.antt =====
-- Steps that may stop and that hand their state on by themselves.
use mathlib.Core.Path.{◌≡◌, refl, ap}
use mathlib.Core.Logic.{◌≢◌}
use mathlib.Core.Bool.{Bool, true, false}
use mathlib.Core.Option.{Option, none, some}
use syncd_sim.Base.Effects.{Fault, Result, ok, err}

module _ {ℓ κ} {A : Type ℓ} {B : Type κ} where
  infixl 10 ◌>>=◌
  unfoldable pub ◌>>=◌ : Result A → (A → Result B) → Result B
  ok x >>= next = next x
  err fault >>= next = err fault

  -- The steps of a chain that has a result.
  pub >>=-eq-ok :
      (r : Result A) (next : A → Result B) {y : B}
      → (r >>= next) ≡ ok y
      → (x : A) × (r ≡ ok x) × (next x ≡ ok y)
  unfolding ◌>>=◌
  >>=-eq-ok (ok x) next h = (x, refl, h)
  >>=-eq-ok (err fault) next h = cc

  -- A chain stops with a fault only where one of its steps does.
  pub >>=-ne-err :
      (stop : Fault) (r : Result A) (next : A → Result B)
      → r ≢ err stop
      → ((x : A) → r ≡ ok x → next x ≢ err stop)
      → (r >>= next) ≢ err stop
  unfolding ◌>>=◌
  >>=-ne-err stop (ok x) next h k = k x refl
  >>=-ne-err stop (err fault) next h k =
      λ p. h (ap err (ap (λ r. elim r [ ok y ↦ stop | err other ↦ other ]) p))

-- `assert(b)`
unfoldable pub check : Bool → Fault → Result (Unit {0})
check true e = ok tt
check false e = err e

-- What has to be there.
unfoldable pub expect {ℓ} : {A : Type ℓ} → Option A → Fault → Result A
expect none e = err e
expect (some a) e = ok a

infixl 10 ◌>>◌
abbrev pub ◌>>◌ {κ} : {B : Type κ} → Result (Unit {0}) → Result B → Result B
first >> second = first >>= λ u. second

pub check-eq-ok : (b : Bool) (e : Fault) {u : Unit {0}} → check b e ≡ ok u → b ≡ true
unfolding check
check-eq-ok true e h = refl
check-eq-ok false e h = cc

pub expect-eq-ok {ℓ} :
    {A : Type ℓ} (o : Option A) (e : Fault) {a : A} → expect o e ≡ ok a → o ≡ some a
unfolding expect
expect-eq-ok none e h = cc
expect-eq-ok (some b) e h = cc
