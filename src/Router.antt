-- ===== src/Router.antt =====
-- internal/router: the routing state and the proxy.
pub mod State
pub mod Select
pub mod Labels
pub mod Operations
pub mod Gauge
pub mod Spec
pub mod Headers
pub mod Errors
pub mod Stream
pub mod Proxy
pub mod Upstream
pub mod System
pub mod Tests
