-- ===== src/Controller.antt =====
-- controllers: the reconciliation of one ReplicaAutoscaler.
pub mod State
pub mod Target
pub mod Scaling
pub mod Exhaust
pub mod Targets
pub mod Limits
pub mod Autoscaling
pub mod Reconcile
pub mod Entry
pub mod Updates
pub mod Conditions
pub mod Panics
