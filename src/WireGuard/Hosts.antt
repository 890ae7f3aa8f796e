-- ===== src/WireGuard/Hosts.antt =====
-- The hosts of a subnet (internal/wireguard/wireguard.go), by division in place of the arithmetic of
-- 32 bits.
use native.Mathlib.Nat.{
  mod-add-div', lt_of_mul-lt-mul_left, mul-le-mul_left, pow-suc, mul_comm, mul-one, mul-suc,
  mul_assoc, pow-le-pow_right,
}
use self_hosted_deployer.Common.{
  ap, ℕ, zero, suc, ◌+◌, ◌-◌, ◌*◌, ◌/◌, ◌%◌, ◌^◌, ◌≤◌, ◌<◌, ◌≡◌, sym, ◌∙◌, arith,
}
use self_hosted_deployer.WireGuard.Allocation.{Prefix, start, end_of, masked}

-- A prefix that leaves room for hosts, with an address of 32 bits.
pub record IsSubnet (p : Prefix) : Type 0 where
  pub roomy : p.bits ≤ 30
  pub in_range : p.addr.value < 2 ^ 32

-- The address lies behind the network's own, the first of the addresses with the prefix, and before
-- the broadcast address, the last one of them.
pub record IsHost (p : Prefix) (a : ℕ) : Type 0 where
  pub behind_network : p.addr.value / 2 ^ (32 - p.bits) * 2 ^ (32 - p.bits) < a
  pub before_broadcast :
      a + 1 < p.addr.value / 2 ^ (32 - p.bits) * 2 ^ (32 - p.bits) + 2 ^ (32 - p.bits)

pow_split : (k b : ℕ) → 2 ^ k * 2 ^ b ≡ 2 ^ (k + b)
pow_split k zero = mul-one (2 ^ k) ∙ ap (λ n. 2 ^ n) (omega arith)
pow_split k (suc b) =
    let next : suc (k + b) ≡ k + suc b = omega arith in
    ap (λ x. 2 ^ k * x) (pow-suc 2 b)
    ∙ (sym (mul_assoc (2 ^ k) (2 ^ b) 2)
        ∙ (ap (λ x. x * 2) (pow_split k b) ∙ (sym (pow-suc 2 (k + b)) ∙ ap (λ n. 2 ^ n) next)))

-- A block of addresses ends within 32 bits.
block_ends :
    (v size blocks : ℕ)
    → 0 < size
    → size * blocks ≡ 2 ^ 32
    → v < 2 ^ 32
    → v / size * size + size ≤ 2 ^ 32
block_ends v size blocks z e h = omega (arith, below, grown, mul_comm (v / size) size)
  where
    fewer : v / size < blocks
    fewer =
        lt_of_mul-lt-mul_left size (omega (arith, mod-add-div' v size, mul_comm (v / size) size, e))

    below : size * suc (v / size) ≤ size * blocks
    below = mul-le-mul_left size (omega (arith, fewer))

    grown : size * suc (v / size) ≡ size * (v / size) + size
    grown = mul-suc size (v / size)

first_at :
    (v rest base size : ℕ)
    → rest + base ≡ v
    → 4 ≤ size
    → base + size ≤ 2 ^ 32
    → (v - rest + 1) % 4294967296 ≡ base + 1
first_at v rest base size e four fits = omega arith

last_at :
    (v rest base size : ℕ)
    → rest + base ≡ v
    → 4 ≤ size
    → base + size ≤ 2 ^ 32
    → (v - rest + size % 4294967296 + 4294967294) % 4294967296 + 2 ≡ base + size
last_at v rest base size e four fits = omega arith

module _ (p : Prefix) (s : IsSubnet p) where
  size_four : 4 ≤ 2 ^ (32 - p.bits)
  size_four =
      let roomy = s.roomy in
      pow-le-pow_right {n = 2} (omega arith) {i = 2} {j = 32 - p.bits} (omega arith)

  network_end : p.addr.value / 2 ^ (32 - p.bits) * 2 ^ (32 - p.bits) + 2 ^ (32 - p.bits) ≤ 2 ^ 32
  network_end =
      let roomy = s.roomy in
      let four = size_four in
      let whole : (32 - p.bits) + p.bits ≡ 32 = omega arith in
      block_ends p.addr.value (2 ^ (32 - p.bits)) (2 ^ p.bits) (omega arith)
        (pow_split (32 - p.bits) p.bits ∙ ap (λ n. 2 ^ n) whole) s.in_range

  pub start-first : start p ≡ p.addr.value / 2 ^ (32 - p.bits) * 2 ^ (32 - p.bits) + 1
  unfolding start masked
  start-first =
      first_at p.addr.value (p.addr.value % 2 ^ (32 - p.bits)) _ (2 ^ (32 - p.bits))
        (mod-add-div' p.addr.value (2 ^ (32 - p.bits))) size_four network_end

  pub end_of-last :
      end_of p + 2 ≡ p.addr.value / 2 ^ (32 - p.bits) * 2 ^ (32 - p.bits) + 2 ^ (32 - p.bits)
  unfolding end_of masked
  end_of-last =
      last_at p.addr.value (p.addr.value % 2 ^ (32 - p.bits)) _ (2 ^ (32 - p.bits))
        (mod-add-div' p.addr.value (2 ^ (32 - p.bits))) size_four network_end
