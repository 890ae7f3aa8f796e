-- ===== src/Cluster/Unclaimed.antt =====
-- Deployments whose annotations name no retained claim (internal/ingress/nodes.go).
use mathlib.Core.Path.{subst, sym}
use self_hosted_deployer.Common.{
  if◌then◌else◌, String, true, List, [], ◌∷◌, All, ◌≡◌, refl, inl, inr, Bool-cases, is_empty,
  trim_space, arith,
}
use self_hosted_deployer.AppConfig.Validate.Storage.{selector_value}
use self_hosted_deployer.Cluster.Types.{Workload}
use self_hosted_deployer.Cluster.Split.{split_commas}
use self_hosted_deployer.Cluster.Removal.{retained_storage_claims, unique_claims}

-- A list of claims, parted by commas, names none.
abbrev pub NamesNone : String → Type 0
NamesNone text = All (λ part. is_empty (trim_space part) ≡ true) (split_commas text)

-- The Deployment's annotations name no claim: the one for several claims names none, and where it is
-- blank, the one for a single claim does not either.
pub record HasNoClaim (w : Workload) : Type 0 where
  pub several :
      NamesNone (trim_space (selector_value "deployer.io/retained-storage-claims" w.annotations))
  pub single :
      is_empty (trim_space (selector_value "deployer.io/retained-storage-claims" w.annotations))
        ≡ true
      → NamesNone (trim_space (selector_value "deployer.io/retained-storage-claim" w.annotations))

no_cons : {x : String} {xs : List String} → x ∷ xs ≡ [] → ⊥
no_cons h = cc

unique_claims-none :
    (parts : List String)
    → unique_claims [] parts ≡ []
    → All (λ part. is_empty (trim_space part) ≡ true) parts
unfolding unique_claims
unique_claims-none [] h = tt
unique_claims-none (part ∷ parts) h = elim (Bool-cases (is_empty (trim_space part))) [
  | inl e ↦ (e, unique_claims-none parts (rw e at h))
  | inr e ↦ absurd (no_cons (rw e at h))
]

blank-NamesNone : (text : String) → is_empty text ≡ true → NamesNone text
unfolding split_commas trim_space
blank-NamesNone text h =
    let none_there : NamesNone "" = (refl, tt) in
    let blank : text ≡ "" = ground arith in subst NamesNone (sym blank) none_there

claims_text-NamesNone :
    (text : String)
    → (if is_empty text then [] else unique_claims [] (split_commas text)) ≡ []
    → NamesNone text
claims_text-NamesNone text h = elim (Bool-cases (is_empty text)) [
  | inl e ↦ blank-NamesNone text e
  | inr e ↦ unique_claims-none (split_commas text) (rw e at h)
]

pub no_claims-HasNoClaim : (w : Workload) → retained_storage_claims w ≡ [] → HasNoClaim w
unfolding retained_storage_claims
no_claims-HasNoClaim w h =
    let plural = trim_space (selector_value "deployer.io/retained-storage-claims" w.annotations) in
    elim (Bool-cases (is_empty plural)) [
      | inl e ↦ record {
        several = blank-NamesNone _ e;
        single = λ q.
            claims_text-NamesNone
              (trim_space (selector_value "deployer.io/retained-storage-claim" w.annotations))
              (rw e at h);
      }
      | inr e ↦ record {
        several =
            claims_text-NamesNone
              (trim_space (selector_value "deployer.io/retained-storage-claims" w.annotations))
              (rw e at h);
        single = λ q. cc;
      }
    ]
