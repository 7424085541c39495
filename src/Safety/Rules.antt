-- ===== src/Safety/Rules.antt =====
-- The rules of `IsSafe` for the constructs of a `do` block, and the bounds that they ask for.
use syncd_sim.Base.{
  ℕ, suc, ◌<◌, ◌≡◌, refl, sym, subst, Bool, true, false, List, [], ◌∷◌, arith, if◌then◌else◌, All,
  Option, none, some,
}
use syncd_sim.Base.Effects.{Fault, Exec, pure, fail, require, skip, ◌>>=◌, ◌>>◌, assertion}
use syncd_sim.Base.Effects.Ensures.{
  Ensures-bind, Ensures-pure, Ensures-if, Ensures-require, Ensures-fail,
}
use syncd_sim.Types.{DirectoryEntry, DirectoryEntryStatus, uncached, shared, modified, exclusive}
use syncd_sim.Directory.{is_shared, is_uncached}
use syncd_sim.Directory.Masks.{holders, holders-range}
use syncd_sim.Directory.Entries.{IsEntry, Held}
use syncd_sim.Context.{Config, World}
use syncd_sim.Handler.{find_owner, Handled, done, in_service, still_blocked}
use syncd_sim.Safety.{IsWorld, InBounds, IsSafe}

module _ {cfg : Config} {A B : Type 0} {Q : A → Type 0} {R : B → Type 0} where
  pub IsSafe-bind :
      {m : Exec World A} {f : A → Exec World B}
      → IsSafe cfg Q m
      → ((a : A) → Q a → IsSafe cfg R (f a))
      → IsSafe cfg R (m >>= f)
  IsSafe-bind = Ensures-bind (IsWorld cfg) InBounds

abbrev pub Any : {A : Type 0} → A → Type 0
Any a = Unit {0}

module _ {cfg : Config} {B : Type 0} {R : B → Type 0} where
  -- A statement, and what follows it.
  pub IsSafe-then :
      {m : Exec World (Unit {0})} {k : Exec World B}
      → IsSafe cfg {A = Unit} Any m
      → IsSafe cfg R k
      → IsSafe cfg R (m >> k)
  IsSafe-then h g = Ensures-bind (IsWorld cfg) InBounds h (λ _ _. g)

  pub IsSafe-require :
      (b : Bool) {k : Exec World B}
      → (b ≡ true → IsSafe cfg R k)
      → IsSafe cfg R (require b assertion >> k)
  IsSafe-require b g =
      Ensures-bind (IsWorld cfg) InBounds (Ensures-require (IsWorld cfg) InBounds b assertion tt)
        (λ _ e. g e)

  pub IsSafe-if :
      (b : Bool) {m n : Exec World B}
      → (b ≡ true → IsSafe cfg R m)
      → (b ≡ false → IsSafe cfg R n)
      → IsSafe cfg R (if b then m else n)
  IsSafe-if = Ensures-if (IsWorld cfg) InBounds R

pub IsSafe-pure : {cfg : Config} {A : Type 0} (a : A) → IsSafe cfg Any (pure a)
IsSafe-pure {cfg} a = Ensures-pure (IsWorld cfg) InBounds Any a tt

pub IsSafe-skip : {cfg : Config} → IsSafe cfg {A = Unit} Any skip
IsSafe-skip {cfg} = Ensures-pure (IsWorld cfg) InBounds Any tt tt

pub IsSafe-fail :
    {cfg : Config} {A : Type 0} (e : Fault) → InBounds e → IsSafe cfg {A = A} Any (fail e)
IsSafe-fail {cfg} e h = Ensures-fail (IsWorld cfg) InBounds Any e h

pub find_owner-holders :
    (i p : ℕ) (mask : List Bool) (rest : List ℕ) → holders i mask ≡ p ∷ rest → find_owner i mask ≡ p
unfolding find_owner holders
find_owner-holders i p [] rest h = cc
find_owner-holders i p (true ∷ bs) rest h = cc
find_owner-holders i p (false ∷ bs) rest h = find_owner-holders (suc i) p bs rest h

-- The owner of a line that is neither uncached nor shared is a context.
pub find_owner-lt :
    (n : ℕ) (entry : DirectoryEntry)
    → IsEntry n entry
    → is_shared entry.status ≡ false
    → is_uncached entry.status ≡ false
    → find_owner 0 entry.processor_mask < n
find_owner-lt n entry v s u = go entry.status v.held s u
  where
    one : (p : ℕ) → holders 0 entry.processor_mask ≡ p ∷ [] → find_owner 0 entry.processor_mask < n
    one p h =
        subst (λ q. q < n) (sym (find_owner-holders 0 p entry.processor_mask [] h))
          (subst (All (λ q. q < n)) h
            (holders-range n 0 entry.processor_mask (omega (arith, v.width)))).0

    go :
        (st : DirectoryEntryStatus)
        → Held st (holders 0 entry.processor_mask)
        → is_shared st ≡ false
        → is_uncached st ≡ false
        → find_owner 0 entry.processor_mask < n
    go uncached h s u = cc
    go shared h s u = cc
    go modified h s u = one h.0 h.1
    go exclusive h s u = one h.0 h.1

module _ {cfg : Config} {A B : Type 0} {R : B → Type 0} where
  -- A match on a list, and one on an option.
  pub IsSafe-list :
      (q : List A) {n : Exec World B} {f : A → List A → Exec World B}
      → (q ≡ [] → IsSafe cfg R n)
      → ((m : A) (rest : List A) → q ≡ m ∷ rest → IsSafe cfg R (f m rest))
      → IsSafe cfg R (elim q [ [] ↦ n | m ∷ rest ↦ f m rest ])
  IsSafe-list [] hn hf = hn refl
  IsSafe-list (m ∷ rest) hn hf = hf m rest refl

  pub IsSafe-option :
      (o : Option A) {n : Exec World B} {f : A → Exec World B}
      → (o ≡ none → IsSafe cfg R n)
      → ((a : A) → o ≡ some a → IsSafe cfg R (f a))
      → IsSafe cfg R (elim o [ none ↦ n | some a ↦ f a ])
  IsSafe-option none hn hf = hn refl
  IsSafe-option (some a) hn hf = hf a refl

pub IsSafe-handled :
    {cfg : Config} {B : Type 0} {R : B → Type 0} (r : Handled) {k l n : Exec World B}
    → IsSafe cfg R k
    → IsSafe cfg R l
    → IsSafe cfg R n
    → IsSafe cfg R (elim r [ done ↦ k | in_service ↦ l | still_blocked ↦ n ])
IsSafe-handled done hk hl hn = hk
IsSafe-handled in_service hk hl hn = hl
IsSafe-handled still_blocked hk hl hn = hn

pub IsSafe-return :
    {cfg : Config} {A : Type 0} {Q : A → Type 0} (a : A) → Q a → IsSafe cfg Q (pure a)
IsSafe-return {cfg} {Q} a q = Ensures-pure (IsWorld cfg) InBounds Q a q

-- A match on a test, whose branches are evaluated when they are taken.
pub IsSafe-match :
    {cfg : Config} {B : Type 0} {R : B → Type 0} (b : Bool) {m n : Exec World B}
    → (b ≡ true → IsSafe cfg R m)
    → (b ≡ false → IsSafe cfg R n)
    → IsSafe cfg R (elim b [ false ↦ n | true ↦ m ])
IsSafe-match true hm hn = hm refl
IsSafe-match false hm hn = hn refl
