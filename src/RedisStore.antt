-- ===== src/RedisStore.antt =====
-- internal/redisstore/rdb.go, which redisstore/redisstore.go passes on: the Redis task store.
pub mod Keys
pub mod Scripts
pub mod Transfer
pub mod Invariant
pub mod Calls
pub mod Fencing
pub mod Store
pub mod Fifo
