-- ===== src/RedisStore/Store.antt =====
-- The methods of Store in internal/redisstore/rdb.go. A method that changes the message it is given
-- returns it. The keys of each queue are a database of their own (`Space`); the time and random ids
-- are arguments, and so is what the connection does to each command.
pub mod Base
pub mod Methods
pub mod Intake
pub mod Finish
pub mod Reads
pub mod DeadLetters
pub mod Reach
pub mod Endings
pub mod Arrivals
pub mod Rank
pub mod Moves
pub mod Due
pub mod Leases
pub mod Lookup
pub mod Replay
pub mod Cleanup
pub mod Returned
