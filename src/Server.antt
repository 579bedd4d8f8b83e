-- ===== src/Server.antt =====
-- server/server.go: the delay before a retry, what a worker does with a task, and the recovery of
-- tasks whose lease ended; server/metrics.go and server/handler_mux.go.
pub mod Backoff
pub mod Jitter
pub mod Metrics
pub mod Process
pub mod OnRedis
pub mod Mux
pub mod Recovery
pub mod Config
pub mod Queues
pub mod Lifecycle
pub mod Dispatch
pub mod Pool
pub mod Heartbeat
pub mod Rounds
