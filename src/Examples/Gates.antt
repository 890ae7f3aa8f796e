-- ===== src/Examples/Gates.antt =====
-- The theorems on gates, at an API server with one Service whose versions grow by a letter.
use mathlib.Core.Path.{subst}
use self_hosted_deployer.Common.{
  none, ◌⊎◌, ◌<◌, String, Bool, [], ◌∷◌, ◌==◌, ◌&&◌, ◌≡◌, ◌≢◌, refl, sym, ◌∙◌, ap, eq_iff, and-true,
  Bool-cases, inl, inr, char_count, concat, valid_revision, if◌then◌else◌, ok, pos, arith,
}
use self_hosted_deployer.AppConfig.Validate.Storage.{selector_value}
use self_hosted_deployer.Operation.Types.{ActivationGate, by_number}
use self_hosted_deployer.Cluster.Types.{Reply, got, absent}
use self_hosted_deployer.Gate.Service.{
  Service, UpdateReply, updated, conflict, IsStored, ServiceServer,
}
use self_hosted_deployer.Gate.Activation.{fence_activation_gate}
use self_hosted_deployer.Gate.Writes.{fencing, change_at_gate}
use self_hosted_deployer.Gate.SingleUse.{single_use}
use self_hosted_deployer.Gate.Moved.{Moved}
use self_hosted_deployer.Examples.Data.{revision}

get_service : Service → String → Reply Service
get_service s name = if s.name == name then got s else absent

abbrev stored : Service → Service → Service
stored s sent = record sent { resource_version = concat "v" s.resource_version }

abbrev is_current : Service → Service → Bool
is_current s sent = s.name == sent.name && s.resource_version == sent.resource_version

put_service : Service → Service → UpdateReply × Service
put_service s sent =
    if is_current s sent then (updated (stored s sent), stored s sent) else (conflict, s)

abbrev Older : Service → String → String → Type 0
Older s name version = (s.name ≡ name) × (char_count version < char_count s.resource_version)

record Put (s s' sent u : Service) : Type 0 where
  names : s.name ≡ sent.name
  versions : s.resource_version ≡ sent.resource_version
  answer : u ≡ stored s sent
  after : s' ≡ stored s sent

put_service-Put : (s s' sent u : Service) → put_service s sent ≡ (updated u, s') → Put s s' sent u
unfolding put_service
put_service-Put s s' sent u h = elim (Bool-cases (is_current s sent)) [
  | inr g ↦ absurd (differ (ap (λ p. p.0) (rw g at h)))
  | inl g ↦
      let (n, v) = and-true (s.name == sent.name) (s.resource_version == sent.resource_version) g in
      record {
        names = (eq_iff _ _).0 n;
        versions = (eq_iff _ _).0 v;
        answer = sym (same (ap (λ p. p.0) (rw g at h)));
        after = sym (ap (λ p. p.1) (rw g at h));
      }
]
  where
    differ : {a : Service} → conflict ≡ updated a → ⊥
    differ e = cc

    same : {a b : Service} → updated a ≡ updated b → a ≡ b
    same e = cc

content_kept : (s s' sent u : Service) → Put s s' sent u → IsStored sent u
content_kept s s' sent u p = subst (IsStored sent) (sym p.answer) (record {
  name = refl;
  namespace = refl;
  uid = refl;
  labels = refl;
  annotations = refl;
  selector = refl;
  ports = refl;
})

got_back : (s s' sent u : Service) → Put s s' sent u → get_service s' sent.name ≡ got u
unfolding get_service
got_back s s' sent u p = rw (p.after, p.answer, (eq_iff sent.name sent.name).1 refl) refl

old_version_spent :
    (s s' sent u : Service) → Put s s' sent u → Older s' sent.name sent.resource_version
old_version_spent s s' sent u p = rw (p.after, p.versions) (refl, omega arith)

-- Nothing has happened, or the version has grown.
abbrev Newer : Service → Service → Type 0
Newer s t =
    (s ≡ t) ⊎ ((t.name ≡ s.name) × (char_count s.resource_version < char_count t.resource_version))

got_it : (s a : Service) (name : String) → get_service s name ≡ got a → s ≡ a
unfolding get_service
got_it s a name h = elim (Bool-cases (s.name == name)) [
  | inl e ↦ same (rw e at h)
  | inr e ↦ absurd (differ (rw e at h))
]
  where
    same : got s ≡ got a → s ≡ a
    same q = cc

    differ : ◌≡◌ {A = Reply Service} absent (got a) → ⊥
    differ q = cc

one_content :
    (s s' : Service) (name : String) (a b : Service)
    → Newer s s'
    → get_service s name ≡ got a
    → get_service s' name ≡ got b
    → a.uid ≡ b.uid
    → a.resource_version ≡ b.resource_version
    → a ≡ b
one_content s s' name a b (inl e) h k u v = sym (got_it s a name h) ∙ (e ∙ got_it s' b name k)
one_content s s' name a b (inr (n, lt)) h k u v =
    let c =
      ap (λ x. char_count x.resource_version) (got_it s a name h)
      ∙ (ap char_count v ∙ sym (ap (λ x. char_count x.resource_version) (got_it s' b name k))) in
    absurd (omega arith)

spent_on :
    (s s' : Service) (name version : String)
    → Newer s s'
    → Older s name version
    → Older s' name version
spent_on s s' name version (inl e) o = subst (λ t. Older t name version) e o
spent_on s s' name version (inr (n, lt)) (m, old) = (n ∙ m, omega arith)

abbrev server : ServiceServer
server = record {
  State = Service;
  get = get_service;
  update = put_service;
  Evolves = Newer;
  Spent = Older;
  update_content = λ s s' sent u h. content_kept s s' sent u (put_service-Put s s' sent u h);
  update_kept = λ s s' sent u h. got_back s s' sent u (put_service-Put s s' sent u h);
  update_spends = λ s s' sent u h d. old_version_spent s s' sent u (put_service-Put s s' sent u h);
  same_version = one_content;
  spent_stays = spent_on;
  spent_refused = λ s s' sent u (m, lt) h.
      let p = put_service-Put s s' sent u h in let e = ap char_count p.versions in omega arith;
}

abbrev service : Service
service = record {
  name = "web";
  namespace = "apps";
  uid = "u1";
  resource_version = "v";
  labels = ("deployer.io/app", "web") ∷ [];
  annotations = [];
  selector = ("deployer.io/generation", "g1") ∷ [];
  ports =
      record {
        name = "http";
        protocol = "TCP";
        app_protocol = none;
        port = pos 80;
        target_port = by_number (pos 8080);
        node_port = pos 0;
      }
      ∷ [];
}

abbrev fenced : Service
fenced = record service {
  resource_version = "vv";
  annotations = ("deployer.io/activation-operation", revision) ∷ [];
}

abbrev gate : ActivationGate
gate = record {
  app = "web";
  namespace = "apps";
  uid = "u1";
  resource_version = "v";
  operation_id = "";
}

abbrev fenced_gate : ActivationGate
fenced_gate = record gate { resource_version = "vv"; operation_id = revision }

fences :
    change_at_gate server "apps" service service gate (fencing revision) ≡ (ok fenced_gate, fenced)
unfolding change_at_gate fence_activation_gate valid_revision get_service put_service selector_value
fences = refl

-- The second call has read the Service before the fence, and writes behind it.
single_use_example :
    change_at_gate server "apps" service fenced gate (fencing revision) ≢ (ok fenced_gate, fenced)
single_use_example =
    single_use server "apps" service service fenced gate fenced_gate (fencing revision)
      (fencing revision) service fenced fenced fenced_gate fences tt (inr (refl, omega arith))
      (inl refl)
