-- ===== src/Database/Subsets.antt =====
-- Sets of names as lists: how many members a subset has.
use mathlib.Core.Path.{subst}
use self_hosted_deployer.Common.{
  ◌≤◌, ◌<◌, String, Bool, true, false, List, [], ◌∷◌, ◌≡◌, refl, inl, inr, not, ◌&&◌, ◌||◌, ◌==◌,
  eq_iff, any, all, length, nat_eq, nat_eq_iff, trim_space, is_empty, arith, remove, Bool-cases,
  and-true,
}
use self_hosted_deployer.Database.Names.{
  contains_name, add_name, unique_non_empty_strings, expected_standby_names, equal_string_sets,
}

or_true : (b : Bool) → (b || true) ≡ true
or_true true = refl
or_true false = refl

-- No name twice.
abbrev pub NoRepeat : List String → Type 0
NoRepeat [] = Unit
NoRepeat (x ∷ xs) = (contains_name x xs ≡ false) × NoRepeat xs

abbrev Within : List String → List String → Type 0
Within xs ys = (v : String) → contains_name v xs ≡ true → contains_name v ys ≡ true

abbrev without : String → List String → List String
without x ys = remove (λ other. other == x) ys

length-without : (x : String) (ys : List String) → length (without x ys) ≤ length ys
unfolding remove
length-without x [] = omega arith
length-without x (y ∷ ys) = ground (arith, length-without x ys)

shorter_without :
    (x : String) (ys : List String) → contains_name x ys ≡ true → length (without x ys) < length ys
unfolding remove
shorter_without x [] h = ground arith
shorter_without x (y ∷ ys) h = ground (arith, length-without x ys, shorter_without x ys)

stays_without :
    (x v : String) (ys : List String)
    → (x == v) ≡ false
    → contains_name v ys ≡ true
    → contains_name v (without x ys) ≡ true
unfolding remove
stays_without x v [] d h = h
stays_without x v (y ∷ ys) d h = elim (Bool-cases (y == x)) [
  | inl e ↦ ground (arith, stays_without x v ys d, eq_iff y x)
  | inr e ↦ ground (arith, stays_without x v ys d)
]

pub length-Within : (xs ys : List String) → NoRepeat xs → Within xs ys → length xs ≤ length ys
length-Within [] ys d w = omega arith
length-Within (x ∷ xs) ys (n, d) w = omega (
  arith,
  shorter_without x ys (w x (rw ((eq_iff x x).1 refl) refl)),
  length-Within xs (without x ys) d
      (λ v h. stays_without x v ys (differs v h) (w v (rw h (or_true (x == v))))),
)
  where
    differs : (v : String) → contains_name v xs ≡ true → (x == v) ≡ false
    differs v h = elim (Bool-cases (x == v)) [
      | inl e ↦ absurd (ground (arith, eq_iff x v))
      | inr e ↦ e
    ]

all-Within : (xs ys : List String) → all (λ value. contains_name value ys) xs ≡ true → Within xs ys
all-Within [] ys h v m = absurd (ground arith)
all-Within (x ∷ xs) ys h v m = elim (Bool-cases (x == v)) [
  | inl e ↦ subst (λ w. contains_name w ys ≡ true) ((eq_iff x v).0 e) (and-true _ _ h).0
  | inr e ↦ all-Within xs ys (and-true (contains_name x ys) _ h).1 v (ground arith)
]

-- A set within another one of as many members is that one.
pub equal_string_sets-members :
    (xs ys : List String)
    → NoRepeat xs
    → equal_string_sets xs ys ≡ true
    → (v : String) → contains_name v xs ≡ contains_name v ys
equal_string_sets-members xs ys d h v = elim (Bool-cases (contains_name v xs)) [
  | inl a ↦ rw (a, within v a) refl
  | inr a ↦ elim (Bool-cases (contains_name v ys)) [
    | inr b ↦ rw (a, b) refl
    | inl b ↦ absurd (
        omega (
          arith,
          (nat_eq_iff (length xs) (length ys)).0 same,
          length-Within (v ∷ xs) ys (a, d) (also v b),
        ))
  ]
]
  where
    same : nat_eq (length xs) (length ys) ≡ true
    same = (and-true _ _ h).0

    within : Within xs ys
    within = all-Within xs ys (and-true (nat_eq (length xs) (length ys)) _ h).1

    also : (v : String) → contains_name v ys ≡ true → Within (v ∷ xs) ys
    also v b w m = elim (Bool-cases (v == w)) [
      | inl e ↦ ground (arith, eq_iff v w)
      | inr e ↦ ground (arith, within w)
    ]

module _ (v : String) where
  add_name-member :
      (x : String) (xs : List String)
      → contains_name v (add_name x xs) ≡ ((x == v) || contains_name v xs)
  add_name-member x xs = elim (Bool-cases (contains_name x xs)) [
    | inr e ↦ rw e refl
    | inl e ↦ elim (Bool-cases (x == v)) [
      | inr d ↦ rw (e, d) refl
      | inl d ↦ rw (e, d) (subst (λ w. contains_name w xs ≡ true) ((eq_iff x v).0 d) e)
    ]
  ]

  -- The members of the two sets.
  pub unique_non_empty_strings-member :
      (vs : List String)
      → contains_name v (unique_non_empty_strings vs)
        ≡ (not (is_empty v) && any (λ w. trim_space w == v) vs)
  unique_non_empty_strings-member [] = ground arith
  unique_non_empty_strings-member (u ∷ us) =
      let rest = unique_non_empty_strings us in
      elim (Bool-cases (is_empty (trim_space u))) [
        | inl e ↦ ground (arith, unique_non_empty_strings-member us, eq_iff (trim_space u) v)
        | inr e ↦ rw e (
            ground (
              arith,
              add_name-member (trim_space u) rest,
              unique_non_empty_strings-member us,
              eq_iff (trim_space u) v,
            ))
      ]

  pub expected_standby_names-member :
      (primary : String) (vs : List String)
      → contains_name v (expected_standby_names primary vs)
        ≡ (not (is_empty v) && not (v == primary) && any (λ w. trim_space w == v) vs)
  expected_standby_names-member primary [] = ground arith
  expected_standby_names-member primary (u ∷ us) =
      let rest = expected_standby_names primary us in
      ground (
        arith,
        add_name-member (trim_space u) rest,
        expected_standby_names-member primary us,
        eq_iff (trim_space u) v,
        eq_iff (trim_space u) primary,
        eq_iff v primary,
      )

add_name-NoRepeat : (x : String) (xs : List String) → NoRepeat xs → NoRepeat (add_name x xs)
add_name-NoRepeat x xs d = elim (Bool-cases (contains_name x xs)) [
  | inl e ↦ rw e d
  | inr e ↦ rw e (e, d)
]

pub unique_non_empty_strings-NoRepeat : (vs : List String) → NoRepeat (unique_non_empty_strings vs)
unique_non_empty_strings-NoRepeat [] = tt
unique_non_empty_strings-NoRepeat (v ∷ vs) = elim (Bool-cases (is_empty (trim_space v))) [
  | inl e ↦ rw e (unique_non_empty_strings-NoRepeat vs)
  | inr e ↦ rw e (add_name-NoRepeat (trim_space v) _ (unique_non_empty_strings-NoRepeat vs))
]
