-- ===== src/Server/Process.antt =====
-- What a worker does with a task: `process` of server/server.go, and the recovery of one task whose
-- lease ended, from `recoveryLoop`.
use go_task_engine.Prelude.{Bool, ◌||◌, Option, none, some, List, ◌∷◌, if◌then◌else◌, not}
use go_task_engine.Prelude.Int.{ℤ, pos, ltb_ℤ, leb_ℤ, ◌+ℤ◌, ◌-ℤ◌, wrap_int64}
use go_task_engine.Prelude.Text.{Text, codes}
use go_task_engine.Errors.{Error, is, non_retryable}
use go_task_engine.Result.{Result, ok, err}
use go_task_engine.Model.{TaskMessage, TaskState, is_zero, state_eq}
use go_task_engine.Storage.{TaskStore}
use go_task_engine.Server.Metrics.{
  Metrics, record_processed, record_failed, record_retried, record_archived, record_duration,
}

-- The context that a handler gets: a deadline, a timeout, or the server's context as it is.
pub data Limit : Type 0 where
  deadline timeout : ℤ → Limit
  unlimited : Limit

unfoldable pub limit : TaskMessage → Limit
limit msg =
    if not (is_zero msg.deadline)
    then deadline msg.deadline
    else if ltb_ℤ (pos 0) msg.timeout
    then timeout msg.timeout
    else unlimited

-- Whether a failure ends in the archive for want of retries.
abbrev pub exhausted : TaskMessage → Bool
exhausted msg = leb_ℤ msg.max_retry msg.retry_count

-- `msg.RetryCount++`
unfoldable pub count_retry : TaskMessage → TaskMessage
count_retry msg = record msg { retry_count = wrap_int64 (msg.retry_count +ℤ pos 1) }

-- What the server touches: the store, its metrics, and the errors handed to reportError.
pub record World (S : Type 0) : Type 0 where
  pub store : S
  pub metrics : Option Metrics
  pub reports : List Error

-- The context of a worker: the store, the times it reads, the text of an error, and the delay that
-- ExponentialBackoffWithJitter gives for a number of retries.
module _ {S : Type 0} (s : TaskStore S) (now : ℤ) (text : Error → Text) (delay : ℤ → ℤ) where
  -- The end of each branch: an error of the store is reported, else the counter goes up.
  unfoldable pub conclude :
      (Option Metrics → Option Metrics) → (Option Error × TaskMessage) × S → World S → World S
  conclude count ((none, m), s') w = record w { store = s'; metrics = count w.metrics }
  conclude count ((some e, m), s') w = record w { store = s'; reports = e ∷ w.reports }

  -- `process` after a handler that failed.
  unfoldable pub process_failed : TaskMessage → Error → World S → World S
  unfolding conclude count_retry
  process_failed msg e w =
      if is e non_retryable || exhausted msg
      then conclude record_archived (s.archive now msg (text e) w.store) w
      else conclude record_retried
          (s.schedule_retry now (count_retry msg) (now +ℤ delay msg.retry_count) (text e) w.store) w

  -- `process` after the handler; `msg` is the message as the handler left it.
  unfoldable pub process_result : TaskMessage → Option Error → World S → World S
  unfolding conclude process_failed
  process_result msg none w = conclude record_processed (s.ack_success now msg w.store) w
  process_result msg (some e) w =
      process_failed msg e (record w { metrics = record_failed w.metrics })

  -- `process`. The handler gets the message by pointer, and while it runs others use the store.
  unfoldable pub process :
      (Limit → TaskMessage → S → (Option Error × TaskMessage) × S)
      → ℤ
      → TaskMessage
      → World S
      → World S
  unfolding limit process_result
  process handler elapsed msg w =
      let ((result, msg'), s') = handler (limit msg) msg w.store in
      let w' = process_result msg' result (record w { store = s' }) in
      record w' { metrics = record_duration elapsed w'.metrics }

  -- The body of the inner loop of recoveryLoop, after Get.
  unfoldable pub recover_found : ℤ → Result TaskMessage → World S → World S
  unfolding conclude count_retry
  recover_found tick (err e) w = record w { reports = e ∷ w.reports }
  recover_found tick (ok msg) w =
      if not (state_eq msg.state TaskState.active)
      then w
      else if exhausted msg
      then conclude record_archived (s.archive now msg (codes "task lease expired") w.store) w
      else (let counted = count_retry msg in
          conclude record_retried
            (s.schedule_retry now counted
              (tick +ℤ delay (wrap_int64 (counted.retry_count -ℤ pos 1)))
              (codes "task lease expired") w.store)
            w)

  unfoldable pub recover : ℤ → Text → Text → World S → World S
  unfolding recover_found
  recover tick queue id w = recover_found tick (s.get queue id w.store) w
