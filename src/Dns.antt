-- ===== src/Dns.antt =====
-- cf_dns.c under components/esp_cf_tunnel/src/protocol: the stub codec of edge discovery.
pub mod Names
pub mod Query
pub mod Records
mod Runs
