-- ===== src/Queue.antt =====
-- public/kiosk-offline-queue-v2.js with public/kiosk-queue-protocol-v3.js: the events that a kiosk keeps
-- until the service has them.
pub mod Values
pub mod Items
pub mod Receipts
pub mod Current
pub mod Responses
pub mod State
pub mod Storage
pub mod Enqueue
pub mod Replay
pub mod Sameness
pub mod Valid
pub mod Delivery
pub mod Delivered
pub mod Replayed
pub mod Browser
pub mod Loaded
pub mod Removed
pub mod Present
pub mod Behind
pub mod Added
pub mod Kept
pub mod Lawful
