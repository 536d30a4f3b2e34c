-- ===== src/Network/Pods.antt =====
-- The two multi-runtime managers as seen by their callers: pkg/network/MultiRuntimeNetworking.go
-- and pkg/network/MultiRuntimePodLocalNetworking.go.
pub mod Frame
pub mod Exhaustion
pub mod Registered
pub mod Names
pub mod Stop
