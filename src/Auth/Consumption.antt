-- ===== src/Auth/Consumption.antt =====
-- Consumers that race for one join token (internal/db/join_token_repository.go).
use mathlib.Core.Path.{subst}
use self_hosted_deployer.Common.{
  sym, Option-cases, eq_iff, Bool-cases, inl, inr, ℕ, ◌+◌, ◌≤◌, String, Bool, true, false, some,
  none, ◌<◌, List, [], ◌∷◌, ◌≡◌, refl, arith, ◌==◌, ◌&&◌, any, ltb, find?, find?-some, update,
  if◌then◌else◌, ok, err,
}
use self_hosted_deployer.Common.Lists.Rows.{find?-update}
use self_hosted_deployer.Auth.JoinTokens.{
  JoinToken, JoinError, already_used, is_unused, has_hash, find_by_hash, check_token, mark_used,
  consume_read, consume,
}

-- The write of one consumer, with the row that it has read some time before.
pub record Write : Type 0 where
  pub read : JoinToken
  pub hash : String
  pub used_at : ℕ

abbrev pub rows_after : Write → List JoinToken → List JoinToken
rows_after w rows = elim (consume_read w.read w.hash w.used_at rows) [ err e ↦ rows | ok r ↦ r.1 ]

abbrev pub wins : String → Write → List JoinToken → Bool
wins hash w rows =
    w.hash == hash
    && elim (consume_read w.read w.hash w.used_at rows) [ err e ↦ false | ok r ↦ true ]

-- How many consumers of the token get it when their writes run in this order.
unfoldable pub winners : String → List Write → List JoinToken → ℕ
winners hash [] rows = 0
winners hash (w ∷ ws) rows =
    (if wins hash w rows then 1 else 0) + winners hash ws (rows_after w rows)

abbrev free : String → List JoinToken → Bool
free hash rows = any (λ t. has_hash hash t && is_unused t) rows

spent :
    (hash : String) (used_at : ℕ) (rows : List JoinToken)
    → free hash (
        update
          (λ t. has_hash hash t && is_unused t)
          (λ t. record t { used_at = some used_at })
          rows)
      ≡ false
unfolding update
spent hash used_at [] = refl
spent hash used_at (t ∷ rows) = ground (arith, spent hash used_at rows)

-- An update of the tokens of a hash frees no token.
still_spent :
    (hash other : String) (used_at : ℕ) (rows : List JoinToken)
    → free hash rows ≡ false
    → free hash (
        update
          (λ t. has_hash other t && is_unused t)
          (λ t. record t { used_at = some used_at })
          rows)
      ≡ false
unfolding update
still_spent hash other used_at [] h = refl
still_spent hash other used_at (t ∷ rows) h = ground (arith, still_spent hash other used_at rows)

-- The rows behind a write that marks the token.
abbrev marked : String → ℕ → List JoinToken → List JoinToken
marked hash used_at rows =
    update (λ t. has_hash hash t && is_unused t) (λ t. record t { used_at = some used_at }) rows

data Outcome (w : Write) (rows : List JoinToken) : Type 0 where
  lost : (e : JoinError) → consume_read w.read w.hash w.used_at rows ≡ err e → Outcome w rows
  won :
      (t : JoinToken)
      → free w.hash rows ≡ true
      → consume_read w.read w.hash w.used_at rows ≡ ok (t, marked w.hash w.used_at rows)
      → Outcome w rows

outcome : (w : Write) (rows : List JoinToken) → Outcome w rows
unfolding consume_read check_token mark_used
outcome w rows = elim (Bool-cases (is_unused w.read)) [
  | inr used ↦ lost already_used (ground arith)
  | inl fresh ↦ elim (Bool-cases (ltb w.used_at w.read.expires_at)) [
    | inr late ↦ lost JoinError.expired (ground arith)
    | inl valid ↦ elim (Bool-cases (free w.hash rows)) [
      | inr taken ↦ lost already_used (ground arith)
      | inl open_row ↦ won (record w.read { used_at = some w.used_at }) open_row (ground arith)
    ]
  ]
]

-- Nobody gets a token that is not free.
no_winner :
    (hash : String) (ws : List Write) (rows : List JoinToken)
    → free hash rows ≡ false
    → winners hash ws rows ≡ 0
unfolding winners
no_winner hash [] rows h = refl
no_winner hash (w ∷ ws) rows h = elim (outcome w rows) [
  | lost e c ↦ rw c (ground (arith, no_winner hash ws rows h))
  | won t f c ↦ elim (Bool-cases (w.hash == hash)) [
    | inl same ↦
        let e : w.hash ≡ hash = (eq_iff w.hash hash).0 same in
        let k : free w.hash rows ≡ false = rw e h in cc
    | inr other ↦
        let after : rows_after w rows ≡ marked w.hash w.used_at rows = rw (rows_after, c) refl in
        rw (after, other)
          (ground (
            arith,
            no_winner hash ws (marked w.hash w.used_at rows)
                (still_spent hash w.hash w.used_at rows h),
          ))
  ]
]

-- A join token is consumed once at most: whatever the consumers have read before, in whatever order
-- their writes run, and whichever tokens they are for, one of them at most gets the token of a hash.
pub one_winner :
    (hash : String) (ws : List Write) (rows : List JoinToken) → winners hash ws rows ≤ 1
unfolding winners
one_winner hash [] rows = omega arith
one_winner hash (w ∷ ws) rows = elim (outcome w rows) [
  | lost e c ↦ rw c (ground (arith, one_winner hash ws rows))
  | won t f c ↦ elim (Bool-cases (w.hash == hash)) [
    | inl same ↦
        let e : w.hash ≡ hash = (eq_iff w.hash hash).0 same in
        let none_left : winners hash ws (marked w.hash w.used_at rows) ≡ 0 =
          no_winner hash ws (marked w.hash w.used_at rows)
            (rw (← e) (spent w.hash w.used_at rows)) in
        let after : rows_after w rows ≡ marked w.hash w.used_at rows = rw (rows_after, c) refl in
        rw (after, none_left) (ground arith)
    | inr other ↦
        let after : rows_after w rows ≡ marked w.hash w.used_at rows = rw (rows_after, c) refl in
        rw (after, other) (ground (arith, one_winner hash ws (marked w.hash w.used_at rows)))
  ]
]

spent_row :
    (hash : String) (used_at : ℕ) (rows : List JoinToken) (t : JoinToken)
    → find? (has_hash hash) rows ≡ some t
    → is_unused t ≡ true
    → find? (has_hash hash) (marked hash used_at rows) ≡ some (record t { used_at = some used_at })
spent_row hash used_at rows t h u =
    rw
      (
        find?-update (has_hash hash) (λ x. has_hash hash x && is_unused x)
            (λ x. record x { used_at = some used_at }) rows (λ x. refl),
        h,
        find?-some (has_hash hash) rows h,
        u,
      )
      refl

read_of :
    (hash : String) (used_at : ℕ) (rows rows' : List JoinToken) (t : JoinToken)
    → consume hash used_at rows ≡ ok (t, rows')
    → (r : JoinToken) × (find? (has_hash hash) rows ≡ some r)
      × (is_unused r ≡ true)
      × (ltb used_at r.expires_at ≡ true)
      × (t ≡ record r { used_at = some used_at })
      × (rows' ≡ marked hash used_at rows)
unfolding consume find_by_hash consume_read check_token mark_used
read_of hash used_at rows rows' t h = elim (Option-cases (find? (has_hash hash) rows)) [
  | inl absent ↦ ground arith
  | inr (r, found) ↦ (r, found, ground arith, ground arith, ground arith, ground arith)
]

consume_spent :
    (hash : String) (later : ℕ) (rows : List JoinToken) (t : JoinToken)
    → find? (has_hash hash) rows ≡ some t
    → is_unused t ≡ false
    → consume hash later rows ≡ err already_used
unfolding consume find_by_hash consume_read check_token
consume_spent hash later rows t h u =
    rw (consume, find_by_hash, h, consume_read, check_token, u) refl

unused_none : (r : JoinToken) → is_unused r ≡ true → r.used_at ≡ none
unused_none r h = elim (Option-cases r.used_at) [ inl e ↦ e | inr (x, e) ↦ absurd (ground arith) ]

-- An undisturbed Consume that succeeds has found the row of the hash, which was unused and not expired
-- at that time, returns that row as used at that time, and makes every later Consume of the hash fail
-- as already used.
pub consume-consume :
    (hash : String) (used_at later : ℕ) (rows rows' : List JoinToken) (t : JoinToken)
    → consume hash used_at rows ≡ ok (t, rows')
    → (row : JoinToken) × (find? (has_hash hash) rows ≡ some row)
      × (row.used_at ≡ none)
      × (used_at < row.expires_at)
      × (t ≡ record row { used_at = some used_at })
      × (consume hash later rows' ≡ err already_used)
unfolding consume find_by_hash consume_read check_token mark_used
consume-consume hash used_at later rows rows' t h =
    let (r, found, fresh, valid, same, left) = read_of hash used_at rows rows' t h in
    (
      r,
      found,
      unused_none r fresh,
      ground arith,
      same,
      subst (λ (x : List JoinToken). consume hash later x ≡ err already_used) (sym left)
          (consume_spent hash later (marked hash used_at rows) (record r { used_at = some used_at })
            (spent_row hash used_at rows r found fresh) refl),
    )
