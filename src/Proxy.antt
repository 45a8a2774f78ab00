-- ===== src/Proxy.antt =====
-- The sandbox proxy: what it lets through between a browser and a sandbox.
pub mod Guard
