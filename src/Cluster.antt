-- ===== src/Cluster.antt =====
-- What the controller asks of the Kubernetes cluster (internal/ingress).
pub mod Types
pub mod Storage
pub mod Claims
pub mod Retained
pub mod Split
pub mod Nodes
pub mod Removal
pub mod Cordoned
pub mod Drained
pub mod Unclaimed
pub mod Kept
