-- ===== src/Events/Types.antt =====
-- `domain.Event`, `domain.EventCursor` and `domain.EventFilter` (internal/domain/models.go).
use self_hosted_deployer.Common.{ℕ, String, Bool, true, false, Option, ◌≡◌, ◌⊎◌, ℤ}

pub record Event : Type 0 where
  pub id : String
  pub created_at : ℕ
  pub event_type : String
  pub severity : String
  pub message : String
  pub app_id : String
  pub node_id : String
  pub deployment_id : String
  pub metadata_json : String

pub record EventCursor : Type 0 where
  pub created_at : ℕ
  pub id : String

pub record EventFilter : Type 0 where
  pub app_id : String
  pub node_id : String
  pub event_type : String
  pub severity : String
  pub since : Option ℕ
  pub after : Option EventCursor
  pub oldest_first : Bool
  pub limit : ℤ

abbrev pub cursor_of : Event → EventCursor
cursor_of e = record { created_at = e.created_at; id = e.id }

-- SQLite's comparison of texts, which is a strict order of all texts.
pub record Collation : Type 0 where
  pub before : String → String → Bool
  pub before_irrefl : (s : String) → before s s ≡ false
  pub before_trans : (s t u : String) → before s t ≡ true → before t u ≡ true → before s u ≡ true
  pub before_total : (s t : String) → (before s t ≡ true) ⊎ (s ≡ t) ⊎ (before t s ≡ true)
