-- ===== src/Api.antt =====
-- packages/concord-api/src: the service around the core of Concord.
pub mod Spend
pub mod Fanout
pub mod Access
pub mod Replace
pub mod Run
pub mod Setup
pub mod Publish
pub mod Falsify
pub mod Github
