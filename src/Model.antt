-- ===== src/Model.antt =====
-- model/model.go: the task envelope and its validation. `internal/model` repeats these names.
-- A time.Time is its nanoseconds from the Unix epoch, a time.Duration its nanoseconds, both as
-- integers; `int` is an integer too, and code that could overflow it writes the wrap-around out.
use go_task_engine.Prelude.{
  ℕ, ◌-◌, ◌*◌, ◌/◌, ◌^◌, Bool, List, [], Option, none, some, ◌==◌, if◌then◌else◌,
}
use go_task_engine.Prelude.Int.{ℤ, pos, negsuc, ltb_ℤ, eq_ℤ}
use go_task_engine.Prelude.Text.{Text, text_eq}
use go_task_engine.Errors.{Error, plain}

-- The durable state of a task.
pub data TaskState : Type 0 where
  pending scheduled active retry archived completed : TaskState

abbrev index : TaskState → ℕ
index pending = 0
index scheduled = 1
index active = 2
index retry = 3
index archived = 4
index completed = 5

-- Equality of two states, as of the strings that they are.
abbrev pub state_eq : TaskState → TaskState → Bool
state_eq s t = index s == index t

-- The zero time.Time, the first instant of year 1.
abbrev pub zero_time : ℤ
zero_time = negsuc (62135596800 * 10 ^ 9 - 1)

pub record TaskMessage : Type 0 where
  pub id : Text
  pub type : Text
  pub payload : List ℕ
  pub queue : Text
  pub priority : ℤ
  pub max_retry : ℤ
  pub retry_count : ℤ
  pub timeout : ℤ
  pub deadline : ℤ
  pub run_at : ℤ
  pub state : TaskState
  pub attempt_id : Text
  pub last_error : Text
  pub last_failed_at : ℤ
  pub completed_at : ℤ
  pub created_at : ℤ

-- time.Time.IsZero
abbrev pub is_zero : ℤ → Bool
is_zero t = eq_ℤ t zero_time

-- time.Time.UnixMilli, which rounds down.
unfoldable pub unix_milli : ℤ → ℤ
unix_milli (pos n) = pos (n / 10 ^ 6)
unix_milli (negsuc n) = negsuc (n / 10 ^ 6)

-- The checks of Validate on a message that is there.
unfoldable pub validate_fields : TaskMessage → Option Error
validate_fields m =
    if text_eq m.id []
    then some (plain "task id is required")
    else if text_eq m.type []
    then some (plain "task type is required")
    else if text_eq m.queue []
    then some (plain "task queue is required")
    else if ltb_ℤ m.priority (pos 0)
    then some (plain "task priority must be non-negative")
    else if ltb_ℤ m.max_retry (pos 0)
    then some (plain "max retry must be non-negative")
    else if ltb_ℤ m.timeout (pos 0)
    then some (plain "task timeout cannot be negative")
    else none

-- (*TaskMessage).Validate; a nil pointer is `none`.
unfoldable pub validate : Option TaskMessage → Option Error
unfolding validate_fields text_eq
validate none = some (plain "task message is nil")
validate (some m) = validate_fields m
