-- ===== src/Database/Placement.antt =====
-- The architecture that a placement asks for (internal/server/app.go).
use Prim.Native.Char.{Char, code}
use Prim.Native.String.{[], ◌∷◌}
use self_hosted_deployer.Common.{
  String, true, false, ◌≡◌, refl, ap, ◌⊎◌, inl, inr, not, nat_eq, nat_eq_iff, all_chars, concat,
  Bool-cases, arith, trim_space,
}
use self_hosted_deployer.Database.Architecture.{has_slash, after_last_slash, postgres_architecture}

-- The whole placement or what stands behind a slash, without a slash of its own.
pub record IsArchitecture (placement arch : String) : Type 0 where
  pub no_slash : all_chars (λ c. not (nat_eq c b'/')) arch ≡ true
  pub last_part :
      (placement ≡ arch)
      ⊎ ((front : String) × (slash : Char) × (code slash ≡ b'/')
          × (placement ≡ concat front (slash ∷ arch)))

has_slash-none : (s : String) → has_slash s ≡ false → all_chars (λ c. not (nat_eq c b'/')) s ≡ true
has_slash-none [] h = refl
has_slash-none (c ∷ s) h = ground (arith, has_slash-none s)

has_slash-some :
    (s : String) → has_slash s ≡ true → all_chars (λ c. not (nat_eq c b'/')) s ≡ true → ⊥
has_slash-some [] h k = absurd (ground arith)
has_slash-some (c ∷ s) h k = absurd (ground (arith, has_slash-some s))

longer :
    (c : Char) (s arch : String)
    → has_slash s ≡ true
    → IsArchitecture s arch
    → (front : String) × (slash : Char) × (code slash ≡ b'/')
      × (c ∷ s ≡ concat front (slash ∷ arch))
longer c s arch h a = go a.last_part
  where
    go :
        (s ≡ arch)
          ⊎ ((front : String) × (slash : Char) × (code slash ≡ b'/')
              × (s ≡ concat front (slash ∷ arch)))
        → (front : String) × (slash : Char) × (code slash ≡ b'/')
          × (c ∷ s ≡ concat front (slash ∷ arch))
    go (inl same) = absurd (has_slash-some s h (rw same a.no_slash))
    go (inr (front, slash, k, e)) = (c ∷ front, slash, k, ap (λ x. c ∷ x) e)

after_last_slash-IsArchitecture : (s : String) → IsArchitecture s (after_last_slash s)
unfolding after_last_slash
after_last_slash-IsArchitecture [] = record { no_slash = refl; last_part = inl refl }
after_last_slash-IsArchitecture (c ∷ s) =
    let rest = after_last_slash-IsArchitecture s in
    elim (Bool-cases (has_slash s)) [
      | inl h ↦ rw h (record { no_slash = rest.no_slash; last_part = inr (longer c s _ h rest) })
      | inr h ↦ elim (Bool-cases (nat_eq (code c) b'/')) [
        | inl e ↦
            rw (h, e)
              (record {
                no_slash = has_slash-none s h;
                last_part = inr ("", c, (nat_eq_iff (code c) b'/').0 e, refl);
              })
        | inr e ↦
            rw (h, e)
              (record { no_slash = has_slash-none (c ∷ s) (rw (h, e) refl); last_part = inl refl })
      ]
    ]

pub postgres_architecture-IsArchitecture :
    (placement : String) → IsArchitecture (trim_space placement) (postgres_architecture placement)
postgres_architecture-IsArchitecture placement =
    after_last_slash-IsArchitecture (trim_space placement)
