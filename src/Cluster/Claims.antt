-- ===== src/Cluster/Claims.antt =====
-- What the tests on node terms and on mounted claims decide.
use self_hosted_deployer.Common.{
  String, Bool, true, false, Option, none, some, List, [], ◌∷◌, ◌==◌, ◌&&◌, any, all, All, eq_iff,
  ◌≡◌, refl, ◌⊎◌, inl, inr, ◌≢◌, Bool-cases, and-true, arith,
}
use self_hosted_deployer.AppConfig.Validate.Storage.{selector_value}
use self_hosted_deployer.Cluster.Types.{Pod, SelectorRequirement, Workload}
use self_hosted_deployer.Cluster.Storage.{
  is_only, is_exact_pin, every_term_pins, uses_claim, mounts_elsewhere, runs_elsewhere,
}

-- A requirement of the term is just the node's id.
abbrev pub PinsTo : String → List SelectorRequirement → Type 0
PinsTo id [] = ⊥
PinsTo id (r ∷ rs) =
    ((r.key ≡ "deployer.io/node-id") × (r.operator ≡ "In") × (r.values ≡ id ∷ [])) ⊎ PinsTo id rs

-- The volume has node terms, and each of them leaves the node alone.
abbrev pub IsPinned : String → Option (List (List SelectorRequirement)) → Type 0
IsPinned id none = ⊥
IsPinned id (some terms) = (terms ≢ []) × All (PinsTo id) terms

abbrev pub Refers : String → List String → Type 0
Refers claim [] = ⊥
Refers claim (c ∷ cs) = (c ≡ claim) ⊎ Refers claim cs

is_only-ok : (x : String) (ys : List String) → is_only x ys ≡ true → ys ≡ x ∷ []
is_only-ok x [] h = cc
is_only-ok x (y ∷ []) h = rw ((eq_iff y x).0 h) refl
is_only-ok x (y ∷ z ∷ ys) h = cc

PinsTo-of_any :
    (id : String) (rs : List SelectorRequirement) → any (is_exact_pin id) rs ≡ true → PinsTo id rs
PinsTo-of_any id [] h = cc
PinsTo-of_any id (r ∷ rs) h = elim (Bool-cases (is_exact_pin id r)) [
  | inr g ↦ inr (PinsTo-of_any id rs (ground arith))
  | inl g ↦
      let (ko, v) =
        and-true (r.key == "deployer.io/node-id" && r.operator == "In") (is_only id r.values) g in
      let (k, o) = and-true (r.key == "deployer.io/node-id") (r.operator == "In") ko in
      inl ((eq_iff _ _).0 k, (eq_iff _ _).0 o, is_only-ok id r.values v)
]

PinsTo-of_all :
    (id : String) (terms : List (List SelectorRequirement))
    → all (any (is_exact_pin id)) terms ≡ true
    → All (PinsTo id) terms
PinsTo-of_all id [] h = tt
PinsTo-of_all id (t ∷ ts) h =
    let (g, gs) = and-true (any (is_exact_pin id) t) (all (any (is_exact_pin id)) ts) h in
    (PinsTo-of_any id t g, PinsTo-of_all id ts gs)

pub every_term-IsPinned :
    (id : String) (terms : Option (List (List SelectorRequirement)))
    → elim terms [ none ↦ false | some ts ↦ every_term_pins id ts ] ≡ true
    → IsPinned id terms
every_term-IsPinned id none h = cc
every_term-IsPinned id (some []) h = cc
every_term-IsPinned id (some (t ∷ ts)) h = (λ e. cc, PinsTo-of_all id (t ∷ ts) h)

Refers-uses : (claim : String) (cs : List String) → Refers claim cs → uses_claim claim cs ≡ true
Refers-uses claim [] r = elim r [ ]
Refers-uses claim (c ∷ cs) (inl e) = ground (arith, eq_iff c claim)
Refers-uses claim (c ∷ cs) (inr r) = ground (arith, Refers-uses claim cs r)

pub All-of_none {ℓ} :
    {A : Type 0} (P : A → Type ℓ) (q : A → Bool)
    → ((x : A) → q x ≡ false → P x)
    → (xs : List A) → any q xs ≡ false
    → All P xs
All-of_none P q f [] h = tt
All-of_none P q f (x ∷ xs) h = (f x (ground arith), All-of_none P q f xs (ground arith))

pub elsewhere_free :
    (app claim : String) (w : Workload)
    → mounts_elsewhere app claim w ≡ false
    → (w.name ≡ app) ⊎ (Refers claim w.claims → ⊥)
elsewhere_free app claim w h = elim (Bool-cases (w.name == app)) [
  | inl e ↦ inl ((eq_iff _ _).0 e)
  | inr e ↦ inr (λ r. absurd (ground (arith, Refers-uses claim w.claims r)))
]

pub running_free :
    (app claim : String) (p : Pod)
    → runs_elsewhere app claim p ≡ false
    → (p.phase ≡ "Succeeded")
      ⊎ (p.phase ≡ "Failed")
      ⊎ (selector_value "deployer.io/app" p.labels ≡ app)
      ⊎ (Refers claim p.claims → ⊥)
running_free app claim p h = elim (Bool-cases (p.phase == "Succeeded")) [
  | inl e ↦ inl ((eq_iff _ _).0 e)
  | inr e ↦ elim (Bool-cases (p.phase == "Failed")) [
    | inl f ↦ inr (inl ((eq_iff _ _).0 f))
    | inr f ↦ elim (Bool-cases (selector_value "deployer.io/app" p.labels == app)) [
      | inl g ↦ inr (inr (inl ((eq_iff _ _).0 g)))
      | inr g ↦ inr (inr (inr (λ r. absurd (ground (arith, Refers-uses claim p.claims r)))))
    ]
  ]
]
