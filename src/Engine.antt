-- ===== src/Engine.antt =====
-- core/engine: the plugin registry, and what the controller asks of a scaler and of a replicator.
pub mod Interfaces
pub mod Registry
