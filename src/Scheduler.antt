-- ===== src/Scheduler.antt =====
-- src/deterministic-scheduler-v1.mjs: the scheduler that proposes a slot for each candidate. A time is its
-- time value in milliseconds, a natural number.
pub mod Slots
pub mod Durations
pub mod Resolving
pub mod Ranking
pub mod Penalties
pub mod Weighing
pub mod Options
pub mod Offers
pub mod Occupied
pub mod Placing
pub mod Separation
pub mod Placed
