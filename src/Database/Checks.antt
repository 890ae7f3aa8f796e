-- ===== src/Database/Checks.antt =====
-- What the absence of a warning, and a state that reads healthy, say of the tests behind them.
use self_hosted_deployer.Common.{
  String, [], ◌∷◌, ◌++◌, Bool, true, false, List, ◌≡◌, refl, ap, not, ◌&&◌, ◌==◌, eq_iff, All,
  nat_eq_iff, if◌then◌else◌, is_empty, arith, ℤ, pos, negsuc, lt_int, eq_int,
}
use self_hosted_deployer.Database.Types.{Warning, quorum_missing, reported}
use self_hosted_deployer.Database.Runtime.{has_warnings}

pub eq_int_sound : (a b : ℤ) → eq_int a b ≡ true → a ≡ b
eq_int_sound (pos a) (pos b) h = ap pos ((nat_eq_iff a b).0 h)
eq_int_sound (negsuc a) (negsuc b) h = ap negsuc ((nat_eq_iff a b).0 h)
eq_int_sound (pos a) (negsuc b) h = absurd (ground arith)
eq_int_sound (negsuc a) (pos b) h = absurd (ground arith)

pub lt_int-irreflexive : (a : ℤ) → lt_int a a ≡ false
lt_int-irreflexive (pos a) = ground arith
lt_int-irreflexive (negsuc a) = ground arith

pub reported-quiet :
    (checks : List (Bool × Warning)) → reported checks ≡ [] → All (λ c. c.0 ≡ false) checks
unfolding reported
reported-quiet [] h = tt
reported-quiet ((true, w) ∷ checks) h = absurd (ground arith)
reported-quiet ((false, w) ∷ checks) h = (refl, reported-quiet checks h)

pub append-empty : (xs ys : List Warning) → xs ++ ys ≡ [] → (xs ≡ []) × (ys ≡ [])
append-empty [] ys h = (refl, h)
append-empty (x ∷ xs) ys h = absurd (ground arith)

pub same_text : (a b : String) → not (a == b) ≡ false → a ≡ b
same_text a b h = (eq_iff a b).0 (ground arith)

pub unlike : (a b : String) → (a == b) ≡ false → a ≡ b → ⊥
unlike a b d e = ground (arith, eq_iff a b)

pub healthy_state :
    (absent sound some_ready : Bool)
    → ◌≡◌ {A = String}
        (if absent
          then "missing"
          else if sound
          then "healthy"
          else if some_ready
          then "degraded"
          else "not_ready")
        "healthy"
    → (absent ≡ false) × (sound ≡ true)
healthy_state true c d h = absurd (unlike "missing" "healthy" refl h)
healthy_state false true d h = (refl, refl)
healthy_state false false true h = absurd (unlike "degraded" "healthy" refl h)
healthy_state false false false h = absurd (unlike "not_ready" "healthy" refl h)

pub not_degraded :
    (degraded : Bool) (state : String)
    → (if degraded then "degraded" else state) ≡ "healthy"
    → (state ≡ "healthy") × (degraded ≡ false)
not_degraded true state h = absurd (unlike "degraded" "healthy" refl h)
not_degraded false state h = (h, refl)

pub is_true : (b : Bool) → not b ≡ false → b ≡ true
is_true b h = ground arith

pub is_false : (b : Bool) → not b ≡ true → b ≡ false
is_false b h = ground arith

pub empty_text : (s : String) → is_empty s ≡ true → s ≡ ""
empty_text s h = ground arith

pub no_warnings :
    (present : Bool) (ws : List Warning)
    → present ≡ true
    → (present && has_warnings (if not present then [] else ws)) ≡ false
    → ws ≡ []
no_warnings true [] e h = refl
no_warnings true (w ∷ ws) e h = absurd (ground arith)
no_warnings false ws e h = absurd (ground arith)

-- The quorum is there where no warning says that it is missing.
pub if_present :
    (present : Bool) (checks : List Warning)
    → (if not present then quorum_missing ∷ [] else checks) ≡ []
    → checks ≡ []
if_present true checks h = h
if_present false checks h = absurd (ground arith)

pub quorum_there :
    (present : Bool) (checks : List Warning)
    → (if not present then quorum_missing ∷ [] else checks) ≡ []
    → present ≡ true
quorum_there true checks h = refl
quorum_there false checks h = absurd (ground arith)
