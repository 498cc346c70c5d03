-- ===== src/EbeeControl/Agent.antt =====
-- The agent (modules/ebeecontrol/agent.go): the registry of honeytokens, the audit log, the workflow of an
-- access event and the discovery cycle.
pub mod Registry
pub mod Workflow
pub mod Learning
pub mod Discovery
pub mod Watched
pub mod Reachable
