-- ===== src/PodResource.antt =====
-- utils/scalerprovider/podresource: the scaler by the CPU or memory that pods use.
pub mod Pods
pub mod Scaler
