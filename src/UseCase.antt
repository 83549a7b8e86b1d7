-- ===== src/UseCase.antt =====
-- `createApplyRunEvent` of src/run-event-use-case-v2.mjs over the store of
-- src/sqlite-run-event-store-v2.mjs: an event of a production run is checked, folded into the row of the
-- run, and written in one transaction with its receipt, the requests that it fulfils, the revisions, the
-- audit and the notification.
pub mod Command
pub mod Tables
pub mod Receipt
pub mod Context
pub mod Plan
pub mod Write
pub mod Apply
pub mod Histories
pub mod Writes
pub mod Planning
pub mod Rebuilding
pub mod Outcomes
pub mod Replaying
pub mod Applied
