-- ===== src/PubSub.antt =====
-- crates/open-functions-core/src/pubsub: the client of open-pubusb (client.rs) and the
-- reconciliation of trigger bindings (reconcile.rs).
pub mod Client
pub mod Reconcile
pub mod Convert
