-- ===== src/Agent.antt =====
-- cmd/deployer-agent: the heartbeat loop of a node's agent.
pub mod Backoff
pub mod Loop
pub mod Paced
