-- ===== src/RedisStore/Fencing.antt =====
-- An attempt ends a task at most once, whoever else is at work.
pub mod Finish
pub mod Attempts
pub mod Once
pub mod Done
