-- ===== src/Context/Home.antt =====
-- The number of contexts and the home nodes of lines: `getHomeNodeIdByAddr`.
use syncd_sim.Base.{
  ℕ, zero, suc, ◌+◌, ◌-◌, ◌*◌, ◌/◌, ◌^◌, ◌≤◌, ◌<◌, ◌≡◌, refl, sym, ap, subst, ◌∙◌, inl, inr, arith,
  ltb, Bool-cases,
}
use native.Mathlib.Nat.{
  pow-suc, one-le-pow, mul_assoc, mul-one, add-zero, add-suc, div-lt_iff_lt-mul,
}
use syncd_sim.Context.{Config, log2, log2_loop, home_node_id}

-- What the constructor of `Simulator` sees to.
pub record IsConfig (cfg : Config) : Type 0 where
  pub exponent : ℕ
  pub power : cfg.num_contexts ≡ 2 ^ exponent
  pub small : exponent ≤ 48

pub positive : {cfg : Config} → IsConfig cfg → 0 < cfg.num_contexts
positive c = omega (arith, c.power, one-le-pow c.exponent 2 (omega arith))

log2_loop-pow : (k f : ℕ) → 2 ^ k ≤ f → log2_loop f (2 ^ k) ≡ k
unfolding log2_loop
log2_loop-pow k zero h = absurd (omega (arith, one-le-pow k 2 (omega arith)))
log2_loop-pow zero (suc f) h = refl
log2_loop-pow (suc k) (suc f) h =
    ground
      (arith, pow-suc 2 k, one-le-pow k 2 (omega arith), ap (log2_loop f) halved, log2_loop-pow k f)
  where
    halved : 2 ^ suc k / 2 ≡ 2 ^ k
    halved = omega (arith, pow-suc 2 k)

pub log2-pow : (k : ℕ) → log2 (2 ^ k) ≡ k
unfolding log2
log2-pow k = log2_loop-pow k (2 ^ k) (omega arith)

log2_loop_bounds : (f n : ℕ) → n ≤ f → 0 < n → (2 ^ log2_loop f n ≤ n) × (n < 2 * 2 ^ log2_loop f n)
unfolding log2_loop
log2_loop_bounds zero n h p = absurd (omega arith)
log2_loop_bounds (suc f) n h p = elim (Bool-cases (ltb n 2)) [
  | inl e ↦ rw (e, log2_loop) (ground arith, ground arith)
  | inr e ↦
      rw (e, log2_loop)
        (omega (
          arith,
          pow-suc 2 (log2_loop f (n / 2)),
          log2_loop_bounds f (n / 2) (omega arith) (ground arith),
        ))
]

pow_add : (a b : ℕ) → 2 ^ (a + b) ≡ 2 ^ a * 2 ^ b
pow_add a zero = rw (add-zero a) (sym (mul-one (2 ^ a)))
pow_add a (suc b) =
    ap (λ n. 2 ^ n) (add-suc a b)
    ∙ pow-suc 2 (a + b)
    ∙ ap (λ n. n * 2) (pow_add a b)
    ∙ mul_assoc (2 ^ a) (2 ^ b) 2
    ∙ ap (λ n. 2 ^ a * n) (sym (pow-suc 2 b))

pub log2_bounds : (n : ℕ) → 0 < n → (2 ^ log2 n ≤ n) × (n < 2 * 2 ^ log2 n)
unfolding log2
log2_bounds n p = log2_loop_bounds n n (omega arith) p

-- With a power of two up to 2 ^ 48 for the number of contexts, the home node of every 48-bit
-- address is one of them.
pub home_node_id-lt :
    (cfg : Config) (addr : ℕ)
    → IsConfig cfg
    → addr < 2 ^ 48
    → home_node_id cfg addr < cfg.num_contexts
unfolding home_node_id
home_node_id-lt cfg addr i h =
    subst (λ n. addr / 2 ^ (48 - log2 n) < n) (sym i.power)
      (subst (λ n. addr / 2 ^ (48 - n) < 2 ^ i.exponent) (sym (log2-pow i.exponent))
        ((div-lt_iff_lt-mul (one-le-pow (48 - i.exponent) 2 (omega arith))).1 below))
  where
    split : 2 ^ 48 ≡ 2 ^ i.exponent * 2 ^ (48 - i.exponent)
    split = ap (λ n. 2 ^ n) {x = 48} (omega (arith, i.small)) ∙ pow_add i.exponent (48 - i.exponent)

    below : addr < 2 ^ i.exponent * 2 ^ (48 - i.exponent)
    below = subst (λ n. addr < n) split h
