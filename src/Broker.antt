-- ===== src/Broker.antt =====
-- mountd: the privileged process that lends the application the volumes of cards.
pub mod Mounts
pub mod Observe
pub mod Server
mod Tests
