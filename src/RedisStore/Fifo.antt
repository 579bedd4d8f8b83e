-- ===== src/RedisStore/Fifo.antt =====
-- The order in which tasks of the same rank leave `pending_rank`: that of their sequence numbers.
pub mod Digits
pub mod Members
pub mod Numbered
pub mod Scored
pub mod Next
