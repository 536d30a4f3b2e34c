-- ===== src/Network/Bpf.antt =====
-- pkg/network/EBPF.go: the programs that are loaded and attached, and the routes that are put
-- into their maps.
pub mod Load
pub mod Routes
pub mod Attach
pub use Load.*
pub use Routes.*
pub use Attach.*
