-- ===== src/Proxy.antt =====
-- The package proxy.
pub mod Balancer
pub mod Health
pub mod Forward
pub mod Upgrade
pub mod Setup
pub mod Tcp
pub mod Headers
mod Tests
