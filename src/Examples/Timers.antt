-- ===== src/Examples/Timers.antt =====
-- Durations of the simulated work, and the wait for its end.
use go_task_engine.Prelude.{suc, ◌*◌, ◌^◌, ◌/◌, Option}
use go_task_engine.Prelude.Int.{ℤ, pos, negsuc, wrap_int64, ◌-ℤ◌}
use go_task_engine.Errors.{Error}

-- time.Duration(n) * time.Millisecond
unfoldable pub milliseconds : ℤ → ℤ
unfolding wrap_int64
milliseconds (pos n) = wrap_int64 (pos (n * 10 ^ 6))
milliseconds (negsuc n) = wrap_int64 (pos 0 -ℤ pos (suc n * 10 ^ 6))

-- The select on a timer of this duration and the context: the error of a context that ended first.
abbrev pub Waits : Type 0
Waits = ℤ → Option Error

-- int(d / time.Millisecond), which rounds towards 0.
unfoldable pub in_milliseconds : ℤ → ℤ
in_milliseconds (pos n) = pos (n / 10 ^ 6)
in_milliseconds (negsuc n) = pos 0 -ℤ pos (suc n / 10 ^ 6)
