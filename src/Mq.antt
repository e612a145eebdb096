-- ===== src/Mq.antt =====
-- The message queue of pkg/mq.
pub mod Message
pub mod Nats
pub mod NatsLaws
