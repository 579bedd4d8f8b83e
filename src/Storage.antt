-- ===== src/Storage.antt =====
-- storage/storage.go: the methods of the interface TaskStore that the server calls, in two halves.
-- S is what the store and everybody who uses it hold. The first time of a method that ends a task is
-- what the store reads from its clock. A method that changes the message it is given returns it.
use go_task_engine.Prelude.{ℕ, Option, List}
use go_task_engine.Prelude.Int.{ℤ}
use go_task_engine.Prelude.Text.{Text}
use go_task_engine.Errors.{Error}
use go_task_engine.Result.{Result}
use go_task_engine.Model.{TaskMessage}

pub record TaskStore (S : Type 0) : Type 0 where
  pub ack_success : ℤ → TaskMessage → S → (Option Error × TaskMessage) × S
  pub schedule_retry : ℤ → TaskMessage → ℤ → Text → S → (Option Error × TaskMessage) × S
  pub archive : ℤ → TaskMessage → Text → S → (Option Error × TaskMessage) × S
  pub requeue : TaskMessage → S → (Option Error × TaskMessage) × S
  pub get : Text → Text → S → Result TaskMessage

-- The other half: what hands tasks out and looks after those at work. The attempt ids that the store
-- makes are its own.
pub record TaskSource (S : Type 0) : Type 0 where
  pub claim : Text → ℤ → ℤ → S → Result TaskMessage × S
  pub move_ready : ℤ → ℤ → List Text → S → (ℕ × Option Error) × S
  pub pending_count : Text → S → Result ℕ
  pub expired_ids : ℤ → Text → ℤ → S → Result (List Text)
  pub extend_lease : Text → List (Option TaskMessage) → ℤ → ℤ → S → Option Error × S
