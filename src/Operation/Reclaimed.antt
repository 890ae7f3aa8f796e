-- ===== src/Operation/Reclaimed.antt =====
-- What a reclamation of capacity may take away, and when.
use self_hosted_deployer.Common.{
  ℕ, suc, String, Bool, true, false, Option, none, some, List, [], ◌∷◌, ◌==◌, not, ◌&&◌, ◌||◌, ◌≡◌,
  ◌≢◌, refl, inl, inr, All, Bool-cases, eq_iff, arith,
}
use self_hosted_deployer.AppConfig.Types.{Config, Selector}
use self_hosted_deployer.AppConfig.Parse.{from_json}
use self_hosted_deployer.Journal.Types.{App, DeployRequest, CandidateBinding}
use self_hosted_deployer.Journal.Env.{Env}
use self_hosted_deployer.Journal.Bindings.{is_deleted}
use self_hosted_deployer.Operation.Types.{ActivationGate}
use self_hosted_deployer.Operation.Capacity.{
  CandidateGeneration, PendingReply, some_pending, none_pending, pending_failed, Retirement,
  candidate, legacy, CapacityRun, CapacityWorld, quit, unless_quit, demand, demand_some, ask,
  is_applied, valid_named, decode_generations, still_at, all_gone, finish_cleanup,
  retire_generations, selects_request, reclaim_target, reclaim_unpended, reclaim_request,
  reclaim_candidate_capacity,
}

module _ (P : Retirement → Type 0) where
  -- Every retirement that the run asks for is allowed.
  pub record Allows (run : CapacityRun) : Type 0 where
    pub each : All P run.0

  Allows-unless_quit :
      (b : Bool) (rest : CapacityRun) → (b ≡ false → Allows rest) → Allows (unless_quit b rest)
  unfolding unless_quit
  Allows-unless_quit true rest f = record { each = tt }
  Allows-unless_quit false rest f = f refl

  Allows-demand :
      (b : Bool) (rest : CapacityRun) → (b ≡ true → Allows rest) → Allows (demand b rest)
  unfolding demand
  Allows-demand true rest f = f refl
  Allows-demand false rest f = record { each = tt }

  Allows-demand_some :
      {A : Type 0} (o : Option A) (k : A → CapacityRun)
      → ((a : A) → o ≡ some a → Allows (k a))
      → Allows (demand_some o k)
  unfolding demand_some
  Allows-demand_some none k f = record { each = tt }
  Allows-demand_some (some a) k f = f a refl

  Allows-ask : (r : Retirement) (rest : CapacityRun) → P r → Allows rest → Allows (ask r rest)
  unfolding ask
  Allows-ask r rest p a = record { each = (p, a.each) }

module _ (env : Env) (w : CapacityWorld) (app request_id : String) where
  -- A retirement takes a generation other than the request's, or the legacy predecessor of its gate.
  abbrev pub Spares : Retirement → Type 0
  Spares (candidate g) = g.request_id ≢ request_id
  Spares (legacy gate) = gate.operation_id ≡ request_id

  -- The request is applied and its application runs it, no request is pending, and the traffic is at
  -- the request's generation.
  pub record IsCommitted : Type 0 where
    pub request : DeployRequest
    pub found : w.find_request app request_id ≡ some request
    pub applied_state : is_applied request.state ≡ true
    pub binding : CandidateBinding
    pub bound : w.find_binding app request_id ≡ some binding
    pub current : App
    pub found_current : w.find_app binding.app_id ≡ some current
    pub live : is_deleted current ≡ false
    pub named : current.name ≡ app
    pub runs : current.desired_state_json ≡ request.requested_state
    pub no_pending : w.pending_by_app app ≡ none_pending
    pub gate : ActivationGate
    pub target : Selector
    pub captured : w.capture 0 ≡ some (gate, target)
    pub operation : gate.operation_id ≡ request_id

  abbrev pub Allowed : Retirement → Type 0
  Allowed r = Spares r × IsCommitted

  finish-Allows :
      (gate : ActivationGate) (n : ℕ) (decoded : List (CandidateGeneration × Config))
      → Allowed (legacy gate)
      → Allows Allowed (finish_cleanup env w app request_id gate n decoded)
  unfolding finish_cleanup
  finish-Allows gate n decoded p = Allows-ask Allowed (legacy gate) _ p (
      Allows-demand_some Allowed (w.retire_legacy gate) _ λ l e.
        Allows-demand_some Allowed (all_gone env w app request_id decoded) _
          λ g f. Allows-demand Allowed _ quit (λ h. record { each = tt }))

  retire-Allows :
      (gate : ActivationGate) (n : ℕ) (decoded : List (CandidateGeneration × Config))
      (rest : ℕ → CapacityRun)
      → IsCommitted
      → ((m : ℕ) → Allows Allowed (rest m))
      → Allows Allowed (retire_generations env w app request_id gate n decoded rest)
  unfolding retire_generations
  retire-Allows gate n [] rest c k = k n
  retire-Allows gate n ((g, conf) ∷ gs) rest c k = elim (Bool-cases (g.request_id == request_id)) [
    | inl e ↦ rw e (retire-Allows gate n gs rest c k)
    | inr e ↦ rw e (
        Allows-demand Allowed (still_at env w app request_id gate n) _ λ s.
          Allows-ask Allowed (candidate g) _ (differs g e, c)
            (Allows-demand Allowed (w.retire conf g.request_id) _
              λ r. retire-Allows gate (suc n) gs rest c k))
  ]
    where
      differs :
          (h : CandidateGeneration)
          → (h.request_id == request_id) ≡ false
          → h.request_id ≢ request_id
      differs h d q = absurd (ground (arith, eq_iff h.request_id request_id))

  target-Allows :
      (request : DeployRequest) (app_id : String) (gate : ActivationGate) (target : Selector)
      → gate.operation_id ≡ request_id
      → IsCommitted
      → Allows Allowed (reclaim_target env w app request_id request app_id gate target)
  unfolding reclaim_target
  target-Allows request app_id gate target o c =
      Allows-demand_some Allowed (from_json env.codec request.requested_state) _ λ conf d.
        Allows-demand Allowed (valid_named env w app request_id conf) _ λ v.
          Allows-demand_some Allowed (w.target_ready gate target conf) _ λ ready t.
            Allows-demand Allowed ready _ λ y.
              Allows-demand_some Allowed (w.generations_by_app app app_id) _ λ generations l.
                Allows-demand_some Allowed
                  (decode_generations env w app request_id app_id request generations) _
                  λ decoded x.
                    Allows-demand Allowed (selects_request env w app request_id generations) _ λ z.
                      retire-Allows gate 1 decoded _ c (λ m. finish-Allows gate m decoded (o, c))

  unpended-Allows :
      (request : DeployRequest) (binding : CandidateBinding) (current : App) (reply : PendingReply)
      → w.find_request app request_id ≡ some request
      → is_applied request.state ≡ true
      → w.find_binding app request_id ≡ some binding
      → w.find_app binding.app_id ≡ some current
      → is_deleted current ≡ false
      → current.name ≡ app
      → current.desired_state_json ≡ request.requested_state
      → w.pending_by_app app ≡ reply
      → Allows Allowed (reclaim_unpended env w app request_id request binding.app_id reply)
  unfolding reclaim_unpended
  unpended-Allows request binding current some_pending f a b x l m r e = record { each = tt }
  unpended-Allows request binding current pending_failed f a b x l m r e = record { each = tt }
  unpended-Allows request binding current none_pending f a b x l m r e =
      Allows-demand Allowed (w.deletion_clear app) _ λ d.
        Allows-demand_some Allowed (w.capture 0) _ λ gt c.
          Allows-demand_some Allowed (w.candidate_selector app request_id) _ λ selector s.
            Allows-unless_quit Allowed
              (not (gt.0.operation_id == request_id) || not (w.maps_equal gt.1 selector)) _
              λ h.
                let o : gt.0.operation_id ≡ request_id =
                  (eq_iff gt.0.operation_id request_id).0 (operation_true gt.0 selector gt.1 h) in
                target-Allows request binding.app_id gt.0 gt.1 o (record {
                  request = request;
                  found = f;
                  applied_state = a;
                  binding = binding;
                  bound = b;
                  current = current;
                  found_current = x;
                  live = l;
                  named = m;
                  runs = r;
                  no_pending = e;
                  gate = gt.0;
                  target = gt.1;
                  captured = c;
                  operation = o;
                })
    where
      operation_true :
          (g : ActivationGate) (selector target : Selector)
          → (not (g.operation_id == request_id) || not (w.maps_equal target selector)) ≡ false
          → (g.operation_id == request_id) ≡ true
      operation_true g selector target h = ground arith

  request-Allows :
      (request : DeployRequest)
      → w.find_request app request_id ≡ some request
      → Allows Allowed (reclaim_request env w app request_id request)
  unfolding reclaim_request
  request-Allows request f =
      Allows-demand Allowed (request.app_name == app && request.request_id == request_id) _ λ i.
        Allows-unless_quit Allowed (not (is_applied request.state)) _ λ a.
          Allows-demand_some Allowed (w.find_binding app request_id) _ λ binding b.
            Allows-demand Allowed (binding.app_name == app && binding.request_id == request_id) _
              λ j. Allows-demand_some Allowed (w.find_app binding.app_id) _ λ current x.
                Allows-unless_quit Allowed
                  (is_deleted current
                    || not (current.name == app)
                    || not (current.desired_state_json == request.requested_state))
                  _
                  λ l.
                    unpended-Allows request binding current (w.pending_by_app app) f
                      (applied_true request a) b x (live_false current request l)
                      (named_so current request l) (runs_it current request l) refl
    where
      applied_true :
          (q : DeployRequest) → not (is_applied q.state) ≡ false → is_applied q.state ≡ true
      applied_true q h = ground arith

      live_false :
          (c : App) (q : DeployRequest)
          → (is_deleted c || not (c.name == app) || not (c.desired_state_json == q.requested_state))
            ≡ false
          → is_deleted c ≡ false
      live_false c q h = ground arith

      named_so :
          (c : App) (q : DeployRequest)
          → (is_deleted c || not (c.name == app) || not (c.desired_state_json == q.requested_state))
            ≡ false
          → c.name ≡ app
      named_so c q h = (eq_iff c.name app).0 (ground arith)

      runs_it :
          (c : App) (q : DeployRequest)
          → (is_deleted c || not (c.name == app) || not (c.desired_state_json == q.requested_state))
            ≡ false
          → c.desired_state_json ≡ q.requested_state
      runs_it c q h = (eq_iff c.desired_state_json q.requested_state).0 (ground arith)

  -- Whatever a reclamation asks to retire is a generation other than the request's, or the legacy
  -- predecessor of a gate whose operation is the request; and it asks for anything only where the
  -- request is applied and the live application of its binding runs the requested state, no request of the
  -- application is pending, and the first captured gate has the request as its operation.
  pub reclaim-Allowed : All Allowed (reclaim_candidate_capacity env w app request_id).0
  unfolding reclaim_candidate_capacity
  reclaim-Allowed = reclaim.each
    where
      reclaim : Allows Allowed (reclaim_candidate_capacity env w app request_id)
      reclaim = Allows-unless_quit Allowed (not w.supported) _ λ s.
          elim (Bool-cases (not w.configured)) [
            | inl e ↦ rw e (record { each = tt })
            | inr e ↦
                rw e (Allows-demand_some Allowed (w.find_request app request_id) _ request-Allows)
          ]
