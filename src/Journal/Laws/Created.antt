-- ===== src/Journal/Laws/Created.antt =====
-- The writes of a new candidate (internal/db/candidate_binding_repository.go) one after the other.
use mathlib.Core.Path.{subst}
use self_hosted_deployer.Common.{
  ℕ, String, Bool, true, false, Option, none, some, List, [], ◌∷◌, ◌++◌, ◌≡◌, refl, arith, ◌==◌,
  ◌||◌, any, ok, eq_iff,
}
use self_hosted_deployer.Common.Lists.Rows.{find?-append_new}
use self_hosted_deployer.AppConfig.Types.{Config}
use self_hosted_deployer.Journal.Types.{App, DeployRequest, CandidateBinding, Tables}
use self_hosted_deployer.Journal.Env.{Env}
use self_hosted_deployer.Journal.Transaction.{
  ◌>>=◌, pure, when_tx, is_request, is_pending_of, request_clashes,
}
use self_hosted_deployer.Journal.Requests.{select_request, select_live_app, is_binding}
use self_hosted_deployer.Journal.Bindings.{
  select_app, select_binding, insert_binding, insert_app, insert_deployment, insert_withdrawal,
}
use self_hosted_deployer.Journal.Bindings.Begin.{
  candidate_row, insert_candidate_request, adopt_app, create_candidate,
}
use self_hosted_deployer.Journal.Laws.Inversion.{bind-ok, guard-ok, read-ok, pure-ok}

any_weaker :
    {A : Type 0} (p q : A → Bool) (xs : List A)
    → ((x : A) → p x ≡ true → q x ≡ true)
    → any q xs ≡ false
    → any p xs ≡ false
any_weaker p q [] i h = refl
any_weaker p q (x ∷ xs) i h = ground (arith, i x, any_weaker p q xs i)

same_text : (s : String) → (s == s) ≡ true
same_text s = (eq_iff s s).1 refl

-- The request's row is found behind the insertion.
inserted_request :
    (row : DeployRequest) (t t' : Tables)
    → insert_candidate_request row t ≡ ok (tt, t')
    → select_request row.app_name row.request_id t' ≡ some row
unfolding insert_candidate_request
inserted_request row t t' e =
    let new : request_clashes row t.requests ≡ false = ground arith in
    let changed : t'.requests ≡ t.requests ++ row ∷ [] = ground arith in
    rw changed (
      find?-append_new (is_request row.app_name row.request_id) t.requests row
        (any_weaker (is_request row.app_name row.request_id)
          (λ r. is_request row.app_name row.request_id r || is_pending_of row.app_name r) t.requests
          (λ r h. rw h refl) new)
        (rw (same_text row.app_name, same_text row.request_id) refl))

inserted_binding :
    (b : CandidateBinding) (t t' : Tables)
    → insert_binding b t ≡ ok (tt, t')
    → (select_binding b.app_name b.request_id t' ≡ some b) × (t'.requests ≡ t.requests)
unfolding insert_binding
inserted_binding b t t' e =
    let new : any (is_binding b.app_name b.request_id) t.bindings ≡ false = ground arith in
    let changed : t'.bindings ≡ t.bindings ++ b ∷ [] = ground arith in
    (
      rw changed (
          find?-append_new (is_binding b.app_name b.request_id) t.bindings b new
            (rw (same_text b.app_name, same_text b.request_id) refl)),
      ground arith,
    )

adopted_frame :
    (req : DeployRequest) (c : Config) (proposed : String) (now : ℕ) (row live : Option App)
    (t t' : Tables) (id : String)
    → adopt_app req c proposed now row live t ≡ ok (id, t')
    → t'.requests ≡ t.requests
unfolding adopt_app insert_app pure ◌>>=◌
adopted_frame req c proposed now row none t t' id e = ground arith
adopted_frame req c proposed now row (some a) t t' id e = ground arith

deployment_frame :
    (id app : String) (now : ℕ) (t t' : Tables)
    → insert_deployment id app now t ≡ ok (tt, t')
    → t'.requests ≡ t.requests
unfolding insert_deployment
deployment_frame id app now t t' e = ground arith

withdrawal_frame :
    (b : Bool) (app request : String) (now : ℕ) (t t' : Tables)
    → when_tx b (insert_withdrawal app request now) t ≡ ok (tt, t')
    → (t'.requests ≡ t.requests) × (t'.bindings ≡ t.bindings)
unfolding when_tx insert_withdrawal
withdrawal_frame true app request now t t' e = (ground arith, ground arith)
withdrawal_frame false app request now t t' e = (ground arith, ground arith)

-- The writes of a new candidate one after the other.
written_rows :
    (env : Env) (req : DeployRequest) (c : Config) (proposed deployment_id : String) (now : ℕ)
    (withdrawal : Bool) (row live : Option App) (new : DeployRequest) (b : CandidateBinding)
    (t1 t2 t3 t4 t5 t6 : Tables) (id : String)
    → insert_candidate_request new t1 ≡ ok (tt, t2)
    → adopt_app req c proposed now row live t2 ≡ ok (id, t3)
    → insert_deployment deployment_id id now t3 ≡ ok (tt, t4)
    → insert_binding b t4 ≡ ok (tt, t5)
    → when_tx withdrawal (insert_withdrawal req.app_name req.request_id now) t5 ≡ ok (tt, t6)
    → (select_binding b.app_name b.request_id t6 ≡ some b)
      × (select_request new.app_name new.request_id t6 ≡ some new)
written_rows env req c proposed deployment_id now withdrawal row live new b t1 t2 t3 t4 t5 t6 id m8
      m9 m10 m11 m12 =
    let bound = inserted_binding b t4 t5 m11 in
    let last = withdrawal_frame withdrawal req.app_name req.request_id now t5 t6 m12 in
    let r3 = adopted_frame req c proposed now row live t2 t3 id m9 in
    let r4 = deployment_frame deployment_id id now t3 t4 m10 in
    (rw last.1 bound.0, rw (last.0, bound.1, r4, r3) (inserted_request new t1 t2 m8))

row_names :
    (env : Env) (req : DeployRequest) (live : Option App) (now : ℕ)
    → ((candidate_row env req live now).app_name ≡ req.app_name)
      × ((candidate_row env req live now).request_id ≡ req.request_id)
row_names env req none now = (refl, refl)
row_names env req (some a) now = (refl, refl)

-- A new candidate that is created is bound, and its request is a pending row that holds the
-- predecessor: the application that was live before the call, or none.
pub create_candidate-binds :
    (env : Env) (req : DeployRequest) (c : Config) (proposed deployment_id : String) (now : ℕ)
    (withdrawal : Bool) (b : CandidateBinding) (fresh : Bool) (t t' : Tables)
    → create_candidate env req c proposed deployment_id now withdrawal t ≡ ok ((b, fresh), t')
    → (select_binding req.app_name req.request_id t' ≡ some b)
      × (b.deployment_id ≡ deployment_id)
      × (select_request req.app_name req.request_id t'
          ≡ some (candidate_row env req (select_live_app req.app_name t) now))
unfolding create_candidate
create_candidate-binds env req c proposed deployment_id now withdrawal b fresh t t' e =
    let z : CandidateBinding × Bool = (b, fresh) in
    let e1 = read-ok (λ u. any (is_pending_of req.app_name) u.requests) _ t t' z e in
    let (g2, e2) = guard-ok _ _ _ t t' z e1 in
    let e3 = read-ok (λ u. any (is_request req.app_name req.request_id) u.requests) _ t t' z e2 in
    let (g4, e4) = guard-ok _ _ _ t t' z e3 in
    let e5 = read-ok (select_live_app req.app_name) _ t t' z e4 in
    let e6 = read-ok (select_app req.app_name) _ t t' z e5 in
    let (a7, t1, m7, e7) = bind-ok _ _ t t' z e6 in
    let (a8, t2, m8, e8) = bind-ok _ _ t1 t' z e7 in
    let (id, t3, m9, e9) = bind-ok _ _ t2 t' z e8 in
    let (a10, t4, m10, e10) = bind-ok _ _ t3 t' z e9 in
    let (a11, t5, m11, e11) = bind-ok _ _ t4 t' z e10 in
    let (a12, t6, m12, e12) = bind-ok _ _ t5 t' z e11 in
    let made : String → CandidateBinding = λ i. record {
      app_name = req.app_name;
      request_id = req.request_id;
      app_id = i;
      deployment_id = deployment_id;
      created_at = now;
    } in
    let (same, last) = pure-ok _ z t6 t' e12 in
    let live = select_live_app req.app_name t in
    let rows =
      written_rows env req c proposed deployment_id now withdrawal (select_app req.app_name t) live
        (candidate_row env req live now) (made id) t1 t2 t3 t4 t5 t6 id m8 m9 m10 m11 m12 in
    let new : DeployRequest = candidate_row env req live now in
    let (app_named, request_named) = row_names env req live now in
    let found =
      subst (λ (a : String). select_request a req.request_id t6 ≡ some new) app_named
        (subst (λ (i : String). select_request new.app_name i t6 ≡ some new) request_named
          rows.1) in
    let left = λ (p : CandidateBinding) (u : Tables).
      (select_binding req.app_name req.request_id u ≡ some p)
      × (p.deployment_id ≡ deployment_id)
      × (select_request req.app_name req.request_id u ≡ some (candidate_row env req live now)) in
    subst (λ (u : Tables). left b u) last
      (subst (λ (p : CandidateBinding × Bool). left p.0 t6) same (rows.0, refl, found))
