-- ===== src/RedisStore/Transfer.antt =====
-- The scripts on any implementation of the commands and on the reference database.
pub mod Agrees
pub mod Intake
pub mod Finish
pub mod DeadLetters
