-- ===== src/EbeeControl.antt =====
-- The deception module, modules/ebeecontrol: the classifier of threats, the plans and their execution,
-- the registry of honeytokens, the deployers, the trainer, the event buffer, the agent's workflow and
-- the configuration.
pub mod Types
pub mod Classifier
pub mod Planner
pub mod Monitor
pub mod Executor
pub mod Deployer
pub mod Trainer
pub mod Agent
pub mod Config
