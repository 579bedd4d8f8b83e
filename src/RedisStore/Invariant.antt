-- ===== src/RedisStore/Invariant.antt =====
-- Where a task is recorded, and the records beside its state.
pub mod Records
pub mod Finish
pub mod Intake
pub mod DeadLetters
