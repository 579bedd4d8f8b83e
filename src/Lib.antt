-- ===== src/Lib.antt =====
-- Go-TaskEngine: a task engine on Redis. Clients persist tasks, servers claim them from their queues,
-- run a handler on each, and end each as completed, to be retried, or archived as a dead letter.
--
-- Every state transition of a task is a Lua script that Redis runs whole (internal/redisstore/rdb.go).
-- The methods of the store run these scripts; client/client.go makes messages and gives them to a
-- store; server/server.go claims tasks from a store and ends them there.
--
-- The files:
--   Prelude     native numbers, integers with the wrap-around of int64, texts as lists of codes
--   Errors      the error values of all packages and errors.Is; IsQueueEmpty (storage/storage.go)
--   Float       the rounding of float64, a parameter; the values of taskRank are integers
--   Result      Go's pairs of a value and an error
--   Model       model/model.go: TaskState, TaskMessage, Validate
--   Double      float64 as the configuration uses it: its operations are a parameter
--   Storage     storage/storage.go: the methods of the interface TaskStore that the server calls
--   Redis       the Redis commands that the scripts use, as an interface with a law for each command
--               (Redis.antt), the contents of keys that the laws speak of (Keyspace), a database that
--               has the laws (Reference), and lemmas on sorted sets and lists
--   RedisStore  internal/redisstore/rdb.go
--     Scripts     each Lua script, a function of the keys of one queue and its ARGV; loops are loops
--                 over the list that their ZRANGEBYSCORE or KEYS gave
--     Transfer    the scripts on any Redis and on the reference database
--     Invariant   the records of the tasks, and the scripts on them
--     Calls       lists of script runs by any number of clients
--     Fencing     the attempt ids, and the scripts that ask for one
--     Fifo        the members of the pending tasks, and which task is the next
--     Keys        the names of the keys
--     Store       the methods of Store: the message they encode, the script they send, how they read
--                 its reply; a Link says whether a command arrives and whether its reply does; what
--                 becomes of a task that arrives (Arrivals), is due (Moves, Due), is given back (Returned),
--                 or is a dead letter (Replay, Cleanup)
--   Ids         the random ids of client/client.go and internal/redisstore/rdb.go
--   Client      client/client.go: options, the message of a task, Enqueue, EnqueueAt, EnqueueIn
--   Timer       internal/timer/timer.go: the heap of events, Schedule, cancellation and Run; when
--               callbacks run (Order), which come first (Sorted), and what becomes of them (Drain)
--   Limiter     internal/limiter/bucket.go: the token bucket and its script; how many tokens a bucket has
--               (Bounds); what makes a bucket valid (Valid)
--   Server      server/server.go: the configuration and New (Config, Queues); Start, Stop, Shutdown
--               and Run (Lifecycle); a round of dispatch (Dispatch); the dispatcher, the workers and the
--               channel between them (Pool); process and the recovery of one task (Process), both on the Redis
--               store (OnRedis, Recovery, Recovery/Effect); ExponentialBackoff (Backoff) and its jitter (Jitter); the
--               tasks at work and the heartbeat (Heartbeat); a tick of the recovery loop and
--               the giving back of a task (Rounds), with what a tick does (Rounds/Swept,
--               Rounds/Expired, Rounds/Recovery); server/metrics.go (Metrics);
--               server/handler_mux.go (Mux)
--   Examples    the programs under examples/: command lines with the flags of the Go library (Flags,
--               Support), the handlers (Image, Signing), the producers (Producers, Sent, Handled) on
--               the Redis store (Stored), and the workers (Workers)
--   Tests       runs at concrete inputs
--
-- How the model stands to the code. The keys of one queue are one database; a store has a database
-- for each queue name. A task id, a member and an attempt id are lists of codes; "%020d:" .. id is
-- written out, and so is what the claim script reads from it. A script error after a write leaves the
-- write. Times are nanoseconds from the Unix epoch, unbounded; retry counts, counters and the delay
-- of a retry wrap around at 2 ^ 63. Times read from the clock, random ids, encoding/json, the context
-- and the connection are parameters. What a mutex protects is one step. Goroutines are steps that come
-- in any order: those of the dispatcher and the workers in Server/Pool, those of Run and its callers
-- in Timer. Whether a wait of Shutdown ends before its deadline is an argument, and the timer of Run
-- runs out at the time it was set for or later. Loops are over lists or counted; the two loops that go
-- on for ever, of the pool and of Run, are sequences of steps, so there is no fuel. A
-- round of dispatch, a beat and a tick of the recovery run with no scripts of others between theirs.
--
-- Float64 is a parameter too: a theorem asks of it what IEEE 754 says. The numbers of Lua that count the
-- tasks of a queue are exact, as doubles are up to 2 ^ 53. Whether encoding/json can write a
-- time is a parameter: it does for the years 0 to 9999, and so for what it has read.
--
-- In the examples, how a text is read as a number or a duration, the environment and whether a Redis
-- server answers are parameters; what they log, also by FormatMetrics, is left out.
--
-- Not modelled: the handlers' contexts and the public wrappers.
pub mod Prelude
pub mod Errors
pub mod Float
pub mod Double
pub mod Result
pub mod Model
pub mod Storage
pub mod Redis
pub mod RedisStore
pub mod Ids
pub mod Client
pub mod Timer
pub mod Limiter
pub mod Server
pub mod Examples
pub mod Tests
