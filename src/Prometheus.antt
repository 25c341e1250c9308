-- ===== src/Prometheus.antt =====
-- utils/scalerprovider/prometheus: the scaler by the value of a Prometheus query.
pub mod Query
pub mod Scaler
