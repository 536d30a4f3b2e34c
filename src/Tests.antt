-- ===== src/Tests.antt =====
-- The theorems at concrete inputs: a node whose machine answers every call, in Samples, and one
-- run of each operation on it.
mod Samples
mod Addresses
mod Maps
mod Pods
mod Provider
mod Osv
mod Backends
