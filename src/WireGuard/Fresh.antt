-- ===== src/WireGuard/Fresh.antt =====
-- The address that `NextPeerIP` of internal/wireguard/wireguard.go chooses.
use self_hosted_deployer.Common.{
  ℕ, zero, suc, ◌+◌, ◌-◌, ◌≤◌, ◌<◌, String, Bool, true, false, Option, none, some, List, [], ◌∷◌,
  ◌≡◌, ◌⊎◌, inl, inr, refl, arith, not, ◌&&◌, ◌||◌, any, ltb, nat_eq, is_empty, trim_space, Result,
  ok, err, ◌>>=◌, Bool-cases, Option-cases, >>=-ok,
}
use self_hosted_deployer.WireGuard.Hosts.{IsSubnet, IsHost, start-first, end_of-last}
use self_hosted_deployer.WireGuard.Allocation.{
  Prefix, Netip, AllocationError, exhausted, start, end_of, is_used, scan, or_else, next_of, lesser,
  choose, collect, need, next_peer, greater,
}

scan-some :
    (used : List ℕ) (rounds from a : ℕ)
    → scan used rounds from ≡ some a
    → (from ≤ a) × (a < from + rounds) × (is_used used a ≡ false)
unfolding scan
scan-some used zero from a h = cc
scan-some used (suc rounds) from a h = elim (Bool-cases (is_used used from)) [
  | inl taken ↦
      let rest : scan used rounds (from + 1) ≡ some a = ground arith in
      let (lo, hi, free) = scan-some used rounds (from + 1) a rest in
      (omega arith, omega arith, free)
  | inr free ↦ let same : from ≡ a = ground arith in (omega arith, omega arith, rw (← same) free)
]

scan-none :
    (used : List ℕ) (rounds from a : ℕ)
    → scan used rounds from ≡ none
    → from ≤ a
    → a < from + rounds
    → is_used used a ≡ true
unfolding scan
scan-none used zero from a h lo hi = ground arith
scan-none used (suc rounds) from a h lo hi = elim (Bool-cases (is_used used from)) [
  | inl taken ↦ elim (Bool-cases (nat_eq from a)) [
    | inl same ↦ let e : from ≡ a = ground arith in rw (← e) taken
    | inr differs ↦
        let rest : scan used rounds (from + 1) ≡ none = ground arith in
        scan-none used rounds (from + 1) a rest (ground arith) (omega arith)
  ]
  | inr free ↦ ground arith
]

-- The first candidate is at the start or behind it.
next_of-start : (p : Prefix) (m : ℕ) → start p ≤ next_of p m
unfolding next_of
next_of-start p m = ground arith

or_else-cases : (o q : Option ℕ) (a : ℕ) → or_else o q ≡ some a → (o ≡ some a) ⊎ (q ≡ some a)
or_else-cases none q a h = inr h
or_else-cases (some b) q a h = inl h

choose-some :
    (p : Prefix) (used : List ℕ) (m a : ℕ)
    → choose p used m ≡ some a
    → (start p ≤ a) × (a ≤ end_of p) × (is_used used a ≡ false)
unfolding choose
choose-some p used m a h =
    let n = next_of-start p m in
    elim (or_else-cases _ _ a h) [
      | inl first ↦
          let (lo, hi, free) = scan-some used (end_of p + 1 - next_of p m) (next_of p m) a first in
          (omega arith, omega arith, free)
      | inr second ↦
          let (lo, hi, free) =
            scan-some used (lesser (next_of p m) (end_of p + 1) - start p) (start p) a second in
          (omega arith, ground arith, free)
    ]

choose-none :
    (p : Prefix) (used : List ℕ) (m a : ℕ)
    → choose p used m ≡ none
    → start p ≤ a
    → a ≤ end_of p
    → is_used used a ≡ true
unfolding choose
choose-none p used m a h lo hi =
    let first : scan used (end_of p + 1 - next_of p m) (next_of p m) ≡ none = ground arith in
    let second : scan used (lesser (next_of p m) (end_of p + 1) - start p) (start p) ≡ none =
      ground arith in
    elim (Bool-cases (ltb a (next_of p m))) [
      | inl before ↦ scan-none used _ (start p) a second lo (ground arith)
      | inr behind ↦ scan-none used _ (next_of p m) a first (ground arith) (ground arith)
    ]

-- A text of the existing addresses stands for the address.
abbrev pub stands_for : Netip → ℕ → String → Bool
stands_for w a value =
    not (is_empty (trim_space value))
    && elim (w.parse_addr (trim_space value)) [ none ↦ false | some x ↦ nat_eq a x.value ]

-- The loop records what it was given and what the texts stand for, and nothing else.
collect-is_used :
    (w : Netip) (p : Prefix) (used : List ℕ) (m : ℕ) (existing : List String) (used' : List ℕ)
    (m' a : ℕ)
    → collect w p used m existing ≡ ok (used', m')
    → is_used used' a ≡ (is_used used a || any (stands_for w a) existing)
unfolding collect
collect-is_used w p used m [] used' m' a h =
    let e : used ≡ used' = ground arith in rw (← e) (ground arith)
collect-is_used w p used m (value ∷ rest) used' m' a h =
    elim (Bool-cases (is_empty (trim_space value))) [
      | inl blank ↦
          let tail : collect w p used m rest ≡ ok (used', m') = ground arith in
          rw (blank, collect-is_used w p used m rest used' m' a tail) refl
      | inr text ↦ elim (Option-cases (w.parse_addr (trim_space value))) [
        | inl bad ↦ ground arith
        | inr (x, parsed) ↦
            let tail : collect w p (x.value ∷ used) (greater m x.value) rest ≡ ok (used', m') =
              ground arith in
            rw
              (
                text,
                parsed,
                collect-is_used w p (x.value ∷ used) (greater m x.value) rest used' m' a tail,
              )
              (ground arith)
      ]
    ]

collect_not_exhausted :
    (w : Netip) (p : Prefix) (used : List ℕ) (m : ℕ) (existing : List String)
    → collect w p used m existing ≡ err exhausted
    → ⊥
unfolding collect
collect_not_exhausted w p used m [] h = cc
collect_not_exhausted w p used m (value ∷ rest) h =
    elim (Bool-cases (is_empty (trim_space value))) [
      | inl blank ↦ collect_not_exhausted w p used m rest (ground arith)
      | inr text ↦ elim (Option-cases (w.parse_addr (trim_space value))) [
        | inl bad ↦ ground arith
        | inr (x, parsed) ↦
            collect_not_exhausted w p (x.value ∷ used) (greater m x.value) rest (ground arith)
      ]
    ]

need-ok : (o : Option ℕ) (a : ℕ) → need exhausted o ≡ ok a → o ≡ some a
need-ok none a h = cc
need-ok (some b) a h = ground arith

need-err : (o : Option ℕ) → need exhausted o ≡ err exhausted → o ≡ none
need-err none h = refl
need-err (some b) h = cc

IsHost-of_bounds : (p : Prefix) → IsSubnet p → (a : ℕ) → start p ≤ a → a ≤ end_of p → IsHost p a
IsHost-of_bounds p s a lo hi = record {
  behind_network = omega (arith, start-first p s);
  before_broadcast = omega (arith, end_of-last p s);
}

IsHost-bounds : (p : Prefix) → IsSubnet p → (a : ℕ) → IsHost p a → (start p ≤ a) × (a ≤ end_of p)
IsHost-bounds p s a h =
    let behind = h.behind_network in
    let before = h.before_broadcast in
    (omega (arith, start-first p s), omega (arith, end_of-last p s))

-- An address that is returned for a subnet with room for hosts lies between the network's own address
-- and the broadcast address; it is not the reserved one, and no existing text stands for it.
pub next_peer-fresh :
    (w : Netip) (p : Prefix) (reserved : ℕ) (existing : List String) (a : ℕ)
    → IsSubnet p
    → next_peer w p reserved existing ≡ ok a
    → IsHost p a × (nat_eq a reserved ≡ false) × (any (stands_for w a) existing ≡ false)
unfolding next_peer
next_peer-fresh w p reserved existing a s h =
    let (x, ex, f) = >>=-ok (collect w p (reserved ∷ []) reserved existing) _ h in
    let (lo, hi, free) = choose-some p x.0 x.1 a (need-ok _ a f) in
    let seen = collect-is_used w p (reserved ∷ []) reserved existing x.0 x.1 a ex in
    (IsHost-of_bounds p s a lo hi, ground arith, ground arith)

-- When the search ends without an address, every address between the network's own and the broadcast
-- address of a subnet with room for hosts is the reserved one or
-- has an existing text that stands for it.
pub next_peer-full :
    (w : Netip) (p : Prefix) (reserved : ℕ) (existing : List String) (a : ℕ)
    → IsSubnet p
    → next_peer w p reserved existing ≡ err exhausted
    → IsHost p a
    → (nat_eq a reserved || any (stands_for w a) existing) ≡ true
unfolding next_peer
next_peer-full w p reserved existing a s h host =
    go (collect w p (reserved ∷ []) reserved existing) refl h
  where
    bounds : (start p ≤ a) × (a ≤ end_of p)
    bounds = IsHost-bounds p s a host

    go :
        (r : Result AllocationError (List ℕ × ℕ))
        → collect w p (reserved ∷ []) reserved existing ≡ r
        → (r >>= λ x. need exhausted (choose p x.0 x.1)) ≡ err exhausted
        → (nat_eq a reserved || any (stands_for w a) existing) ≡ true
    go (err e) c k =
        let same : e ≡ exhausted = ground arith in
        elim (collect_not_exhausted w p (reserved ∷ []) reserved existing (rw c (rw same refl))) [ ]
    go (ok (used, m)) c k =
        let seen = collect-is_used w p (reserved ∷ []) reserved existing used m a c in
        let taken = choose-none p used m a (need-err _ k) bounds.0 bounds.1 in ground arith
