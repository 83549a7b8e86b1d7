-- ===== src/Tests.antt =====
-- The theorems at concrete inputs, and runs of the definitions.
mod Outbox
mod Run
mod Kiosk
mod Dispatcher
mod UseCase
mod Scheduler
mod Queue
mod Browser
