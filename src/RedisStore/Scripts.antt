-- ===== src/RedisStore/Scripts.antt =====
-- The Lua scripts of internal/redisstore/rdb.go over the keys of one queue. KEYS name the keys, so
-- they are fixed here; ARGV and the id behind the key of a task are arguments. A script runs with
-- nothing in between, and returns its reply with the database.
pub mod Replies
pub mod Members
pub mod Intake
pub mod Finish
pub mod DeadLetters
pub mod Loops
