-- ===== src/Timer.antt =====
-- internal/timer/timer.go: the time wheel. The heap of container/heap is the list of its events in the
-- order of Less, whose first entry is the root; an event is in the heap while its `index` is not
-- negative. A wheel is what Run, Schedule and the cancellations share, with what Run waits for, and
-- the history of the events that were scheduled, run and dropped.
pub mod Order
pub mod Drain
pub mod Sorted
use go_task_engine.Prelude.{
  ℕ, ◌+◌, ◌%◌, ◌^◌, Bool, true, false, ◌||◌, Option, none, some, List, [], ◌∷◌, if◌then◌else◌, ltb,
  ◌==◌, is_some, not,
}
use go_task_engine.Prelude.Int.{ℤ, ltb_ℤ, leb_ℤ, eq_ℤ}

-- The callbacks are values of any type; nil is `none`.
pub record Event (C : Type 0) : Type 0 where
  pub at : ℤ
  pub callback : Option C
  pub cancelled : Bool
  pub sequence : ℕ

pub record Wheel (C : Type 0) : Type 0 where
  pub events : List (Event C)
  pub sequence : ℕ
  -- the time of the event for which Run has set its timer
  pub armed : Option ℤ
  pub scheduled : List (Event C)
  -- the events whose callbacks ran, with the time
  pub fired : List (Event C × ℤ)
  pub dropped : List (Event C)

abbrev pub new_wheel : {C : Type 0} → Wheel C
new_wheel = record {
  events = [];
  sequence = 0;
  armed = none;
  scheduled = [];
  fired = [];
  dropped = [];
}

module _ {C : Type 0} where
  -- Less
  unfoldable pub event_lt : Event C → Event C → Bool
  event_lt e f = if eq_ℤ e.at f.at then ltb e.sequence f.sequence else ltb_ℤ e.at f.at

  -- heap.Push
  unfoldable pub push_event : Event C → List (Event C) → List (Event C)
  unfolding event_lt
  push_event e [] = e ∷ []
  push_event e (f ∷ fs) = if event_lt e f then e ∷ f ∷ fs else f ∷ push_event e fs

  -- Schedule; the event is known by its sequence number.
  unfoldable pub schedule : ℤ → Option C → Wheel C → Wheel C
  unfolding push_event
  schedule at callback w =
      let n = (w.sequence + 1) % 2 ^ 64 in
      let e : Event C = record { at = at; callback = callback; cancelled = false; sequence = n } in
      record w { events = push_event e w.events; sequence = n; scheduled = e ∷ w.scheduled }

  unfoldable pub cancel_in : ℕ → List (Event C) → List (Event C)
  cancel_in n [] = []
  cancel_in n (e ∷ es) =
      (if e.sequence == n then record e { cancelled = true } else e) ∷ cancel_in n es

  -- The function that Schedule returns: it marks an event that is in the heap.
  unfoldable pub cancel : ℕ → Wheel C → Wheel C
  unfolding cancel_in
  cancel n w = record w { events = cancel_in n w.events }

  -- `for len(w.events) > 0 && w.events[0].cancelled { heap.Pop(&w.events) }`
  unfoldable pub discard : List (Event C) → List (Event C) → List (Event C) × List (Event C)
  discard [] dropped = ([], dropped)
  discard (e ∷ es) dropped =
      let rest = discard es (e ∷ dropped) in if e.cancelled then rest else (e ∷ es, dropped)

  abbrev pub head_time : List (Event C) → Option ℤ
  head_time [] = none
  head_time (e ∷ es) = some e.at

  -- Run up to the select: it drops what is cancelled at the front and sets its timer for the next
  -- event, or waits to be woken.
  unfoldable pub arm : Wheel C → Wheel C
  unfolding discard
  arm w =
      let (events, dropped) = discard w.events w.dropped in
      record w { events = events; dropped = dropped; armed = head_time events }

  -- Run woken by a signal before its timer.
  unfoldable pub wake : Wheel C → Wheel C
  wake w = record w { armed = none }

  -- The callback of an event that Run took from the heap.
  unfoldable pub fire : ℤ → Event C → Wheel C → Wheel C
  fire now e w =
      if e.cancelled || not (is_some e.callback)
      then record w { dropped = e ∷ w.dropped }
      else record w { fired = (e, now) ∷ w.fired }

  unfoldable pub fire_first : ℤ → List (Event C) → Wheel C → Wheel C
  unfolding fire
  fire_first now [] w = w
  fire_first now (e ∷ es) w = fire now e (record w { events = es })

  unfoldable pub ring_in : Option ℤ → ℤ → Wheel C → Wheel C
  unfolding fire_first
  ring_in none now w = w
  ring_in (some due) now w =
      if leb_ℤ due now then fire_first now w.events (record w { armed = none }) else w

  -- Run when its timer has run out, which it has not before the time it was set for.
  unfoldable pub ring : ℤ → Wheel C → Wheel C
  unfolding ring_in
  ring now w = ring_in w.armed now w

-- What Run and the callers of a wheel do, in any order.
pub data Step (C : Type 0) : Type 0 where
  call_schedule : ℤ → Option C → Step C
  call_cancel : ℕ → Step C
  run_arm run_wake : Step C
  run_ring : ℤ → Step C

module _ {C : Type 0} where
  unfoldable pub take : Step C → Wheel C → Wheel C
  take (call_schedule at callback) w = schedule at callback w
  take (call_cancel n) w = cancel n w
  take run_arm w = arm w
  take run_wake w = wake w
  take (run_ring now) w = ring now w

  unfoldable pub take_all : List (Step C) → Wheel C → Wheel C
  unfolding take
  take_all [] w = w
  take_all (s ∷ ss) w = take_all ss (take s w)
