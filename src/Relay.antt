-- ===== src/Relay.antt =====
-- packages/relay-api/src: the workspace service.
pub mod Csv
pub mod Limits
