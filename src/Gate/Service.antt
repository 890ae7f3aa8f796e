-- ===== src/Gate/Service.antt =====
-- A Kubernetes Service with the fields that a gate reads, and the API server that keeps it.
use self_hosted_deployer.Common.{String, List, ◌≡◌, ◌≢◌}
use self_hosted_deployer.AppConfig.Types.{Selector}
use self_hosted_deployer.Operation.Types.{ServicePort}
use self_hosted_deployer.Cluster.Types.{Reply, got}

-- corev1.Service
pub record Service : Type 0 where
  pub name : String
  pub namespace : String
  pub uid : String
  pub resource_version : String
  pub labels : Selector
  pub annotations : Selector
  pub selector : Selector
  pub ports : List ServicePort

-- The answer of an `Update`.
pub data UpdateReply : Type 0 where
  updated : Service → UpdateReply
  conflict : UpdateReply
  update_failed : UpdateReply

-- What an update leaves of the object that it was sent: all but the resource version.
pub record IsStored (sent stored : Service) : Type 0 where
  pub name : stored.name ≡ sent.name
  pub namespace : stored.namespace ≡ sent.namespace
  pub uid : stored.uid ≡ sent.uid
  pub labels : stored.labels ≡ sent.labels
  pub annotations : stored.annotations ≡ sent.annotations
  pub selector : stored.selector ≡ sent.selector
  pub ports : stored.ports ≡ sent.ports

-- The API server, whose documented concurrency control is that an update takes place only at the
-- resource version that it was sent, and that a version which an update has replaced by another one
-- never comes back, whatever other writers do; and that an object of one uid has one content at one
-- version. An update that changes nothing may keep the version.
pub record ServiceServer : Type 1 where
  pub State : Type 0
  pub get : State → String → Reply Service
  pub update : State → Service → UpdateReply × State
  pub Evolves : State → State → Type 0
  pub Spent : State → String → String → Type 0
  pub update_content :
      (s s' : State) (sent u : Service) → update s sent ≡ (updated u, s') → IsStored sent u
  pub update_kept :
      (s s' : State) (sent u : Service) → update s sent ≡ (updated u, s') → get s' sent.name ≡ got u
  pub update_spends :
      (s s' : State) (sent u : Service)
      → update s sent ≡ (updated u, s')
      → u.resource_version ≢ sent.resource_version
      → Spent s' sent.name sent.resource_version
  pub same_version :
      (s s' : State) (name : String) (a b : Service)
      → Evolves s s'
      → get s name ≡ got a
      → get s' name ≡ got b
      → a.uid ≡ b.uid
      → a.resource_version ≡ b.resource_version
      → a ≡ b
  pub spent_stays :
      (s s' : State) (name version : String)
      → Evolves s s'
      → Spent s name version
      → Spent s' name version
  pub spent_refused :
      (s s' : State) (sent u : Service)
      → Spent s sent.name sent.resource_version
      → update s sent ≢ (updated u, s')
