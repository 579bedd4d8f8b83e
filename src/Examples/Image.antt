-- ===== src/Examples/Image.antt =====
-- examples/image-processing/image.go.
use go_task_engine.Prelude.{ℕ, Bool, Option, none, some, List, [], if◌then◌else◌}
use go_task_engine.Prelude.Int.{ℤ, pos, ltb_ℤ}
use go_task_engine.Prelude.Text.{Text, text_eq}
use go_task_engine.Errors.{Error, plain, wrap, wrap_two, sentinel, non_retryable}
use go_task_engine.Result.{Result, ok, err}
use go_task_engine.Model.{TaskMessage}
use go_task_engine.Examples.Timers.{Waits, milliseconds}

pub record Payload : Type 0 where
  pub source : Text
  pub duration_ms : ℤ
  pub fail : Bool

unfoldable pub process_payload : Waits → Payload → Option Error
unfolding text_eq
process_payload waits p =
    if text_eq p.source []
    then some (wrap "image source is empty" (sentinel non_retryable))
    else if ltb_ℤ p.duration_ms (pos 0)
    then some (wrap "image duration is negative" (sentinel non_retryable))
    else elim (waits (milliseconds p.duration_ms)) [
      | some e ↦ some e
      | none ↦ if p.fail then some (plain "simulated image processor failure") else none
    ]

-- Handler.ProcessTask; json.Unmarshal is a parameter.
unfoldable pub process_task : (List ℕ → Result Payload) → Waits → TaskMessage → Option Error
unfolding process_payload
process_task decode waits m = elim (decode m.payload) [
  | err e ↦ some (wrap_two "decode image payload" e (sentinel non_retryable))
  | ok p ↦ process_payload waits p
]
