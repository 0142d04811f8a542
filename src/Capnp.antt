-- ===== src/Capnp.antt =====
-- cf_capnp.c and cf_capnp.h under components/esp_cf_tunnel: the bounded Cap'n Proto reader and the
-- single-segment builder.
pub mod Words
pub mod Checks
pub mod Follow
pub mod Reader
pub mod Builder
mod Runs
