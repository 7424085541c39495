-- ===== src/Cache/Geometry.antt =====
-- Tags, set numbers and eviction addresses with the geometry of `Cache(Context*)`: two set bits and
-- nine block bits.
use syncd_sim.Base.{ℕ, ◌+◌, ◌*◌, ◌/◌, ◌%◌, ◌^◌, ◌<◌, ◌≡◌, ◌∙◌, ap, arith, bit_or}
use syncd_sim.Base.Bits.{bit_or_disjoint}
use syncd_sim.Cache.{Cache, tag_of, set_idx, eviction_addr}

pub record IsDefault (c : Cache) : Type 0 where
  pub set_bits : c.s ≡ 2
  pub block_bits : c.b ≡ 9
  pub tag_bits : c.t ≡ 53

module _ (c : Cache) (d : IsDefault c) where
  pub tag_of_default : (addr : ℕ) → tag_of c addr ≡ addr / 2048
  tag_of_default addr = rw (d.set_bits, d.block_bits)

  pub set_idx_default : (addr : ℕ) → set_idx c addr ≡ addr / 512 % 4
  set_idx_default addr = rw (d.tag_bits, d.block_bits) (omega arith)

  pub eviction_addr_default :
      (addr v : ℕ) → v < 2 ^ 53 → eviction_addr c addr v ≡ addr % 2048 + v * 2048
  eviction_addr_default addr v h =
      rw (d.tag_bits, d.block_bits, d.set_bits)
        (ap (λ n. bit_or n (v * 2 ^ 11 % 2 ^ 64)) low
          ∙ ap (bit_or (addr % 2048)) high
          ∙ bit_or_disjoint 11 (addr % 2048) v (omega arith))
    where
      low : addr * 2 ^ 53 % 2 ^ 64 / 2 ^ 53 ≡ addr % 2048
      low = omega arith

      high : v * 2 ^ 11 % 2 ^ 64 ≡ v * 2 ^ 11
      high = omega arith

  -- With the default geometry, the address that is put together for an evicted tag below 2 ^ 53
  -- has that tag and the set of the address written to.
  pub eviction_addr_line :
      (addr v : ℕ)
      → v < 2 ^ 53
      → (tag_of c (eviction_addr c addr v) ≡ v)
        × (set_idx c (eviction_addr c addr v) ≡ set_idx c addr)
  eviction_addr_line addr v h =
      let e = eviction_addr_default addr v h in
      let n = eviction_addr c addr v in
      (
        omega (arith, e, tag_of_default n),
        omega (arith, e, set_idx_default n, set_idx_default addr),
      )
