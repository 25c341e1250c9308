-- ===== src/Plugins.antt =====
-- The plugins: one replicator, and the scalers.
pub mod Simple
pub mod Rabbitmq
pub mod Setup
