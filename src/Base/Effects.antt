-- ===== src/Base/Effects.antt =====
-- The simulator's code mutates shared objects and may stop: on a failed `assert`, on a call of
-- `exit`, and, where C++ leaves the behaviour undefined, on an access out of bounds.
pub mod Ensures
pub mod Steps
pub mod Results
use mathlib.Core.Path.{◌≡◌, refl, ap}
use mathlib.Core.Bool.{Bool, true, false}

pub data Fault : Type 0 where
  -- `contexts[id]` with no such context
  no_context : Fault
  -- `processorMask[id]` with no such bit
  no_processor : Fault
  -- `front()` of an empty vector
  no_message : Fault
  -- a cache line looked for in vain: `exit(-1)`
  no_line : Fault
  -- a set with neither a free line nor a victim
  no_victim : Fault
  -- a message of a type that the receiver does not know
  unknown_type : Fault
  -- a failed `assert`
  assertion : Fault
  -- memory past the end of a buffer, or that nothing has written
  stray_memory : Fault
  -- the model's own bound on a `while` loop
  out_of_fuel : Fault

pub data Result {ℓ} (A : Type ℓ) : Type ℓ where
  ok : A → Result A
  err : Fault → Result A

abbrev pub Exec {ℓ} : Type ℓ → Type ℓ → Type ℓ
Exec S A = S → Result (A × S)

module _ {ℓ} {S A : Type ℓ} where
  abbrev pub pure : A → Exec S A
  pure a s = ok (a, s)

  abbrev pub fail : Fault → Exec S A
  fail e s = err e

  abbrev pub gets : (S → A) → Exec S A
  gets f s = ok (f s, s)

module _ {ℓ} {S A B : Type ℓ} where
  infixl 10 ◌>>=◌
  unfoldable pub ◌>>=◌ : Exec S A → (A → Exec S B) → Exec S B
  ◌>>=◌ m f s = elim (m s) [ ok (a, t) ↦ f a t | err e ↦ err e ]

module _ {S B : Type 0} where
  infixl 10 ◌>>◌
  abbrev pub ◌>>◌ : Exec S (Unit {0}) → Exec S B → Exec S B
  m >> k = m >>= λ _. k

-- `assert(b)`
abbrev pub require : {S : Type 0} → Bool → Fault → Exec S (Unit {0})
require true e s = ok (tt, s)
require false e s = err e

abbrev pub modify : {S : Type 0} → (S → S) → Exec S (Unit {0})
modify f s = ok (tt, f s)

abbrev pub skip : {S : Type 0} → Exec S (Unit {0})
skip s = ok (tt, s)

pub ok_injective {ℓ} : {A : Type ℓ} {a b : A} → ok a ≡ ok b → a ≡ b
ok_injective {a} h = ap (λ r. elim r [ ok x ↦ x | err e ↦ a ]) h
