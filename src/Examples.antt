-- ===== src/Examples.antt =====
-- Concrete runs: the theorems at inputs that exercise the code.
mod Data
mod Configurations
mod Deployments
mod Access
mod Operations
mod Locks
mod TextOrder
mod Events
mod Cluster
mod Gates
mod Loops
mod Reclaims
mod Databases
