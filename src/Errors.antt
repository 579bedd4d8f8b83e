-- ===== src/Errors.antt =====
-- The error values of the packages: the variables made by errors.New, errors made in place, and what
-- fmt.Errorf wraps with %w. Codes the sentinels of storage/storage.go, server/server.go,
-- server/handler_mux.go and internal/limiter/bucket.go, and `errors.Is` of the Go library on them.
-- Of a text with a formatted value the fixed part is kept.
use go_task_engine.Prelude.{
  ℕ, String, ◌≡◌, Bool, true, false, ◌||◌, Option, none, some, arith, ◌==◌, ◌↔◌, if◌then◌else◌,
}

pub data Sentinel : Type 0 where
  no_task queue_empty task_not_found task_exists invalid_transition : Sentinel
  non_retryable server_closed server_running server_invalid_config : Sentinel
  unknown_task_type handler_exists limiter_invalid_config : Sentinel

pub data Error : Type 0 where
  sentinel : Sentinel → Error
  plain : String → Error
  wrap : String → Error → Error
  wrap_two : String → Error → Error → Error

-- Which variable a sentinel is.
abbrev index : Sentinel → ℕ
index no_task = 0
index queue_empty = 1
index task_not_found = 2
index task_exists = 3
index invalid_transition = 4
index non_retryable = 5
index server_closed = 6
index server_running = 7
index server_invalid_config = 8
index unknown_task_type = 9
index handler_exists = 10
index limiter_invalid_config = 11

-- ErrQueueEmpty and ErrTaskNotFound are variables of their own that wrap ErrNoTask.
unfoldable pub sentinel_is : Sentinel → Sentinel → Bool
sentinel_is queue_empty t = index t == 1 || index t == 0
sentinel_is task_not_found t = index t == 2 || index t == 0
sentinel_is s t = index s == index t

-- errors.Is against a sentinel: the error or anything below it in the chain.
unfoldable pub is : Error → Sentinel → Bool
unfolding sentinel_is
is (sentinel s) t = sentinel_is s t
is (plain m) t = false
is (wrap m e) t = is e t
is (wrap_two m e e') t = is e t || is e' t

-- IsQueueEmpty of storage/storage.go.
unfoldable pub is_queue_empty : Option Error → Bool
unfolding is
is_queue_empty none = false
is_queue_empty (some e) = if is e task_not_found then false else is e queue_empty || is e no_task

-- However deep it is wrapped, an empty queue is an ErrNoTask.
queue_empty-no_task : (e : Error) → is e queue_empty ≡ true → is e no_task ≡ true
unfolding is
queue_empty-no_task (sentinel s) h = ground arith
queue_empty-no_task (plain m) h = h
queue_empty-no_task (wrap m e) h = queue_empty-no_task e h
queue_empty-no_task (wrap_two m e e') h =
    ground (arith, queue_empty-no_task e, queue_empty-no_task e')

-- An error counts as an empty queue exactly when ErrNoTask is in its chain and ErrTaskNotFound is
-- not, however it is wrapped.
pub is_queue_empty_iff :
    (e : Error)
    → (is_queue_empty (some e) ≡ true) ↔ ((is e no_task ≡ true) × (is e task_not_found ≡ false))
unfolding is_queue_empty
is_queue_empty_iff e = ground (arith, queue_empty-no_task e)
