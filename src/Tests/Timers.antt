-- ===== src/Tests/Timers.antt =====
-- The time wheel at concrete inputs.
use go_task_engine.Prelude.{ℕ, ◌≡◌, true, false, none, some, List, [], ◌∷◌, arith}
use go_task_engine.Prelude.Int.{pos}
use go_task_engine.Timer.{
  Wheel, new_wheel, Step, call_schedule, call_cancel, run_arm, run_wake, run_ring, take_all,
}
use go_task_engine.Timer.Order.{Punctual, wheel-Punctual}
use go_task_engine.Timer.Drain.{Accounted, alone, wheel-Accounted, alone-events}

-- Three events, the first of which is cancelled before its time.
abbrev steps : List (Step ℕ)
steps =
    call_schedule (pos 5) (some 7)
    ∷ run_arm
    ∷ call_schedule (pos 3) (some 8)
    ∷ run_wake
    ∷ call_cancel 1
    ∷ call_schedule (pos 9) none
    ∷ run_arm
    ∷ run_ring (pos 4)
    ∷ run_arm
    ∷ []

wheel-Punctual_example : Punctual (take_all steps new_wheel)
wheel-Punctual_example = wheel-Punctual steps

wheel-Accounted_example : Accounted (λ n. n) (take_all steps new_wheel)
wheel-Accounted_example = wheel-Accounted (λ n. n) steps

abbrev queued : Wheel ℕ
queued = record new_wheel {
  events =
      record { at = pos 3; callback = some 7; cancelled = true; sequence = 1 }
      ∷ record { at = pos 5; callback = some 8; cancelled = false; sequence = 2 }
      ∷ [];
  sequence = 2;
}

alone-events_example : (alone 2 (pos 6) queued).events ≡ []
alone-events_example =
    alone-events 2 (pos 6) queued (ground arith, (ground arith, tt)) (omega arith)
