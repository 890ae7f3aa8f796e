-- ===== src/WireGuard.antt =====
-- internal/wireguard.
pub mod Allocation
pub mod Hosts
pub mod Fresh
