-- ===== src/Network.antt =====
-- pkg/network: the addresses, the route tables and the network managers of the node.
pub mod Ip
pub mod Scan
pub mod Ipv4
pub mod Ipv6
pub mod Kernel
pub mod Addresses
pub mod Bpf
pub mod Links
pub mod Devices
pub mod PublicIface
pub mod Routing
pub mod MultiRuntime
pub mod PodLocal
pub mod Default
pub mod Pods
