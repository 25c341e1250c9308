-- ===== src/Api.antt =====
-- api/v1: the resource ReplicaAutoscaler and its conditions.
pub mod Types
pub mod Condition
pub mod Gvkr
