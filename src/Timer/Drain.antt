-- ===== src/Timer/Drain.antt =====
-- What becomes of the events of a wheel.
use go_task_engine.Prelude.{
  ℕ, zero, suc, ◌+◌, ◌%◌, ◌^◌, ◌≤◌, ◌≡◌, refl, false, Option, none, some, List, [], ◌∷◌, All, total,
  length, arith,
}
use go_task_engine.Prelude.Int.{ℤ, ◌≤ℤ◌}
use go_task_engine.Timer.{
  Event, Wheel, new_wheel, push_event, schedule, cancel_in, cancel, discard, head_time, arm, wake,
  fire, fire_first, ring_in, ring, Step, call_schedule, call_cancel, run_arm, run_wake, run_ring,
  take, take_all,
}

module _ {C : Type 0} where
  abbrev weight : (ℕ → ℕ) → Event C → ℕ
  weight t e = t e.sequence

  abbrev run_weight : (ℕ → ℕ) → Event C × ℤ → ℕ
  run_weight t p = t p.0.sequence

  -- By every measure of their sequence numbers, the scheduled events are those that are queued, that
  -- ran, and that were dropped.
  abbrev pub Accounted : (ℕ → ℕ) → Wheel C → Type 0
  Accounted t w =
      total (weight t) w.scheduled
      ≡ total (weight t) w.events + total (run_weight t) w.fired + total (weight t) w.dropped

  module _ (t : ℕ → ℕ) where
    total-push :
        (e : Event C) (es : List (Event C))
        → total (weight t) (push_event e es) ≡ t e.sequence + total (weight t) es
    unfolding push_event total
    total-push e [] = refl
    total-push e (f ∷ fs) = ground (arith, total-push e fs)

    total-cancel :
        (n : ℕ) (es : List (Event C)) → total (weight t) (cancel_in n es) ≡ total (weight t) es
    unfolding cancel_in total
    total-cancel n [] = refl
    total-cancel n (e ∷ es) = ground (arith, total-cancel n es)

    total-discard :
        (es ds : List (Event C))
        → total (weight t) (discard es ds).0 + total (weight t) (discard es ds).1
          ≡ total (weight t) es + total (weight t) ds
    unfolding discard total
    total-discard [] ds = refl
    total-discard (e ∷ es) ds = ground (arith, total-discard es (e ∷ ds))

    fire-Accounted :
        (now : ℤ) (es : List (Event C)) (w : Wheel C)
        → w.events ≡ es
        → Accounted t w
        → Accounted t (fire_first now es w)
    unfolding fire_first fire total
    fire-Accounted now [] w e h = h
    fire-Accounted now (x ∷ es) w e h = ground arith

    ring-Accounted :
        (o : Option ℤ) (now : ℤ) (w : Wheel C) → Accounted t w → Accounted t (ring_in o now w)
    unfolding ring_in
    ring-Accounted none now w h = h
    ring-Accounted (some due) now w h =
        ground (arith, fire-Accounted now w.events (record w { armed = none }) refl h)

    take-Accounted : (s : Step C) (w : Wheel C) → Accounted t w → Accounted t (take s w)
    unfolding take schedule cancel arm wake ring total
    take-Accounted (call_schedule at callback) w h = ground (
      arith,
      total-push
          (record {
            at = at;
            callback = callback;
            cancelled = false;
            sequence = (w.sequence + 1) % 2 ^ 64;
          })
          w.events,
    )
    take-Accounted (call_cancel n) w h = omega (arith, total-cancel n w.events)
    take-Accounted run_arm w h = omega (arith, total-discard w.events w.dropped)
    take-Accounted run_wake w h = h
    take-Accounted (run_ring now) w h = ring-Accounted w.armed now w h

    all-Accounted : (ss : List (Step C)) (w : Wheel C) → Accounted t w → Accounted t (take_all ss w)
    unfolding take_all
    all-Accounted [] w h = h
    all-Accounted (s ∷ ss) w h = all-Accounted ss (take s w) (take-Accounted s w h)

    -- Whatever is scheduled and cancelled while Run waits, the scheduled events are, by every measure
    -- of their sequence numbers, those that are queued, that ran and that were dropped: none is lost,
    -- and none is run or dropped twice.
    pub wheel-Accounted : (ss : List (Step C)) → Accounted t (take_all ss new_wheel)
    unfolding total
    wheel-Accounted ss = all-Accounted ss new_wheel refl

  -- Run left alone at a time: it sets its timer, the timer runs out, and so on.
  unfoldable pub alone : ℕ → ℤ → Wheel C → Wheel C
  alone zero now w = w
  alone (suc n) now w = alone n now (ring now (arm w))

  abbrev pub Due : ℤ → List (Event C) → Type 0
  Due now = All (λ (e : Event C). e.at ≤ℤ now)

  discard-Due : (now : ℤ) (es ds : List (Event C)) → Due now es → Due now (discard es ds).0
  unfolding discard
  discard-Due now [] ds h = h
  discard-Due now (e ∷ es) ds h = ground (arith, discard-Due now es (e ∷ ds))

  discard-length : (es ds : List (Event C)) → length (discard es ds).0 ≤ length es
  unfolding discard
  discard-length [] ds = omega arith
  discard-length (e ∷ es) ds = ground (arith, discard-length es (e ∷ ds))

  -- A ring takes the first of the events.
  ring_in-Due :
      (now : ℤ) (es : List (Event C)) (w : Wheel C) (n : ℕ)
      → w.events ≡ es
      → Due now es
      → length es ≤ suc n
      → Due now (ring_in (head_time es) now w).events
        × (length (ring_in (head_time es) now w).events ≤ n)
  unfolding ring_in fire_first fire
  ring_in-Due now [] w n e h l = rw e (tt, omega arith)
  ring_in-Due now (x ∷ es) w n e h l = ground arith

  no_events : (es : List (Event C)) → length es ≤ 0 → es ≡ []
  no_events [] l = refl
  no_events (e ∷ es) l = absurd (omega arith)

  round-Due :
      (n : ℕ) (now : ℤ) (w : Wheel C)
      → Due now w.events
      → length w.events ≤ suc n
      → Due now (ring now (arm w)).events × (length (ring now (arm w)).events ≤ n)
  unfolding ring arm
  round-Due n now w h l =
      ring_in-Due now (discard w.events w.dropped).0 (arm w) n refl
        (discard-Due now w.events w.dropped h) (omega (arith, discard-length w.events w.dropped))

  -- A wheel whose events are all due is empty after as many rounds as it has events.
  pub alone-events :
      (n : ℕ) (now : ℤ) (w : Wheel C)
      → Due now w.events
      → length w.events ≤ n
      → (alone n now w).events ≡ []
  unfolding alone
  alone-events zero now w h l = no_events w.events l
  alone-events (suc n) now w h l =
      let r = round-Due n now w h l in alone-events n now (ring now (arm w)) r.0 r.1
