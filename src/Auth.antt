-- ===== src/Auth.antt =====
-- Callers and their tokens: internal/security, internal/server/auth.go and the join tokens of
-- internal/db.
pub mod Tokens
pub mod Authenticate
pub mod Access
pub mod JoinTokens
pub mod Consumption
