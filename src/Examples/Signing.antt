-- ===== src/Examples/Signing.antt =====
-- examples/c2pa-signing/signing.go.
use go_task_engine.Prelude.{ℕ, Bool, ◌||◌, Option, none, some, List, [], if◌then◌else◌}
use go_task_engine.Prelude.Int.{ℤ}
use go_task_engine.Prelude.Text.{Text, text_eq}
use go_task_engine.Errors.{Error, plain, wrap, wrap_two, sentinel, non_retryable}
use go_task_engine.Result.{Result, ok, err}
use go_task_engine.Model.{TaskMessage}
use go_task_engine.Examples.Timers.{Waits, milliseconds}

pub record Payload : Type 0 where
  pub asset : Text
  pub duration_ms : ℤ
  pub fail : Bool
  pub invalid : Bool

unfoldable pub process_payload : Waits → Payload → Option Error
unfolding text_eq
process_payload waits p =
    if text_eq p.asset [] || p.invalid
    then some (wrap "invalid asset for c2pa signing" (sentinel non_retryable))
    else elim (waits (milliseconds p.duration_ms)) [
      | some e ↦ some e
      | none ↦ if p.fail then some (plain "simulated signing service failure") else none
    ]

-- Handler.ProcessTask; json.Unmarshal is a parameter.
unfoldable pub process_task : (List ℕ → Result Payload) → Waits → TaskMessage → Option Error
unfolding process_payload
process_task decode waits m = elim (decode m.payload) [
  | err e ↦ some (wrap_two "decode c2pa payload" e (sentinel non_retryable))
  | ok p ↦ process_payload waits p
]
