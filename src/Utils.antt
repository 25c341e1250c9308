-- ===== src/Utils.antt =====
-- utils: helpers that the controller and the plugins share.
pub mod Status
pub mod PanicMode
pub mod Timerange
pub mod ReplicaPatches
pub mod Gvkr
pub mod Strings
