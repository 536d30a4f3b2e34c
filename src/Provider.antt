-- ===== src/Provider.antt =====
-- pkg/provider: pods and their instances, over backends that run them.
pub mod Spec
pub mod Identifier
pub mod Host
pub mod Volumes
pub mod Instances
pub mod Pods
pub mod Osv
pub mod Containerd
pub mod Setup
