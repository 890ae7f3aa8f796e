-- ===== src/Gate.antt =====
-- The gate that lets one operation at a time move an application's traffic
-- (internal/ingress/activation.go).
pub mod Service
pub mod Activation
pub mod Writes
pub mod SingleUse
pub mod Moved
