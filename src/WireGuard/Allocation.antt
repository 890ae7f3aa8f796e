-- ===== src/WireGuard/Allocation.antt =====
-- `NextPeerIP` of internal/wireguard/wireguard.go. An IPv4 address is its number of 32 bits, and the
-- arithmetic on it wraps.
use self_hosted_deployer.Common.{
  ℕ, zero, suc, ◌+◌, ◌-◌, ◌/◌, ◌%◌, ◌^◌, String, Bool, Option, none, some, List, [], ◌∷◌, not, ◌&&◌,
  ◌||◌, any, ltb, leb, nat_eq, is_empty, trim_space, if◌then◌else◌, Result, ok, err, ◌>>=◌, ◌>>◌,
  refuse,
}

-- `netip.Addr`, and the number of its low 32 bits
pub record Addr : Type 0 where
  pub is4 : Bool
  pub value : ℕ

-- `netip.Prefix`
pub record Prefix : Type 0 where
  pub addr : Addr
  pub bits : ℕ

-- `netip.ParsePrefix`, `netip.ParseAddr` and `Addr.String`
pub record Netip : Type 0 where
  pub parse_prefix : String → Option Prefix
  pub parse_addr : String → Option Addr
  pub format : ℕ → String

pub data AllocationError : Type 0 where
  bad_subnet not_ipv4 too_small bad_reserved reserved_outside reserved_unusable : AllocationError
  bad_existing existing_outside exhausted : AllocationError

abbrev pub uint32 : ℕ → ℕ
uint32 n = n % 4294967296

-- Prefix.Masked().Addr(), as a number
unfoldable pub masked : Prefix → ℕ
masked p = p.addr.value - p.addr.value % 2 ^ (32 - p.bits)

-- Prefix.Contains
unfoldable pub contains : Prefix → Addr → Bool
contains p a = a.is4 && nat_eq (a.value / 2 ^ (32 - p.bits)) (p.addr.value / 2 ^ (32 - p.bits))

unfoldable pub start : Prefix → ℕ
start p = uint32 (masked p + 1)

unfoldable pub end_of : Prefix → ℕ
end_of p = uint32 (masked p + uint32 (2 ^ (32 - p.bits)) + 4294967294)

abbrev pub is_used : List ℕ → ℕ → Bool
is_used used a = any (nat_eq a) used

-- for current := from; ...; current++, of so many rounds
unfoldable pub scan : List ℕ → ℕ → ℕ → Option ℕ
scan used zero from = none
scan used (suc rounds) from = if is_used used from then scan used rounds (from + 1) else some from

abbrev pub or_else : Option ℕ → Option ℕ → Option ℕ
or_else (some a) o = some a
or_else none o = o

-- The first candidate behind the greatest used address.
unfoldable pub next_of : Prefix → ℕ → ℕ
next_of p max_used =
    let next = uint32 (max_used + 1) in if ltb next (start p) then start p else next

abbrev pub lesser : ℕ → ℕ → ℕ
lesser a b = if ltb b a then b else a

-- The two loops: from the first candidate to the end, then from the start to the first candidate.
unfoldable pub choose : Prefix → List ℕ → ℕ → Option ℕ
choose p used max_used =
    let next = next_of p max_used in
    or_else (scan used (end_of p + 1 - next) next)
      (scan used (lesser next (end_of p + 1) - start p) (start p))

abbrev pub greater : ℕ → ℕ → ℕ
greater a b = if ltb a b then b else a

-- The loop on the existing addresses: the used ones and the greatest of them.
unfoldable pub collect :
    Netip → Prefix → List ℕ → ℕ → List String → Result AllocationError (List ℕ × ℕ)
collect w p used max_used [] = ok (used, max_used)
collect w p used max_used (value ∷ rest) =
    if is_empty (trim_space value)
    then collect w p used max_used rest
    else elim (w.parse_addr (trim_space value)) [
      | none ↦ err bad_existing
      | some a ↦
          if contains p a
          then collect w p (a.value ∷ used) (greater max_used a.value) rest
          else err existing_outside
    ]

abbrev pub need {ℓ} : {A : Type ℓ} → AllocationError → Option A → Result AllocationError A
need e none = err e
need e (some a) = ok a

unfoldable pub next_peer : Netip → Prefix → ℕ → List String → Result AllocationError ℕ
next_peer w p reserved existing = do
  (used, max_used) ← collect w p (reserved ∷ []) reserved existing
  need exhausted (choose p used max_used)

unfoldable pub next_peer_ip : Netip → String → String → List String → Result AllocationError String
unfolding next_peer
next_peer_ip w subnet reserved_ip existing = do
  p ← need bad_subnet (w.parse_prefix (trim_space subnet))
  refuse (not p.addr.is4) not_ipv4
  refuse (leb 31 p.bits) too_small
  reserved ← need bad_reserved (w.parse_addr (trim_space reserved_ip))
  refuse (not reserved.is4 || not (contains p reserved)) reserved_outside
  refuse (nat_eq reserved.value (masked p) || nat_eq reserved.value (uint32 (end_of p + 1)))
      reserved_unusable
  a ← next_peer w p reserved.value existing
  ok (w.format a)
