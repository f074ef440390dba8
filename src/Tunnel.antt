-- ===== src/Tunnel.antt =====
-- The package tunnel.
pub mod Regexp
pub mod Errors
pub mod VirtualHosts
pub mod ClientState
pub mod Controls
pub mod Callbacks
pub mod ConfigFile
pub mod Server
pub mod ControlRequest
pub mod Headers
pub mod Client
pub mod Proxies
pub mod Meeting
pub mod Serving
mod Tests
