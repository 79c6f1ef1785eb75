-- ===== src/Router/Tests.antt =====
-- Runs of the routing state and of the proxy, and the theorems about them at concrete inputs.
pub mod Samples
pub mod Examples
mod Runs
mod Policies
mod Upstreams
mod Relays
mod Gauges
