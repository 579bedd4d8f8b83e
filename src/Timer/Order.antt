-- ===== src/Timer/Order.antt =====
-- When and which callbacks a wheel runs.
use go_task_engine.Prelude.{
  ℕ, ◌≡◌, refl, true, false, not, ◌||◌, Option, none, some, List, [], ◌∷◌, All, arith, Bool-cases,
  inl, inr, is_some,
}
use go_task_engine.Prelude.Int.{ℤ, leb_ℤ, ◌≤ℤ◌}
use go_task_engine.Timer.{
  Event, Wheel, new_wheel, event_lt, push_event, schedule, cancel_in, cancel, discard, head_time,
  arm, wake, fire, fire_first, ring_in, ring, Step, call_schedule, call_cancel, run_arm, run_wake,
  run_ring, take, take_all,
}

module _ {C : Type 0} where
  -- Something is queued that is due by the time.
  abbrev pub HeadBy : Option ℤ → List (Event C) → Type 0
  HeadBy none es = Unit
  HeadBy (some t) [] = ⊥
  HeadBy (some t) (e ∷ es) = e.at ≤ℤ t

  -- What the timer of Run is set for is not before the first event, and no callback ran before the
  -- time of its event, nor one that was cancelled; what was dropped was cancelled or nil.
  pub record Punctual (w : Wheel C) : Type 0 where
    pub set_for : HeadBy w.armed w.events
    pub ran : All (λ (p : Event C × ℤ). (p.0.at ≤ℤ p.1) × (p.0.cancelled ≡ false)) w.fired
    pub lost : All (λ (e : Event C). (e.cancelled || not (is_some e.callback)) ≡ true) w.dropped

  discard-lost :
      (es ds : List (Event C))
      → All (λ (e : Event C). (e.cancelled || not (is_some e.callback)) ≡ true) ds
      → All (λ (e : Event C). (e.cancelled || not (is_some e.callback)) ≡ true) (discard es ds).1
  unfolding discard
  discard-lost [] ds a = a
  discard-lost (e ∷ es) ds a = ground (arith, discard-lost es (e ∷ ds))

  HeadBy-push :
      (o : Option ℤ) (e : Event C) (es : List (Event C)) → HeadBy o es → HeadBy o (push_event e es)
  unfolding push_event event_lt
  HeadBy-push none e es h = tt
  HeadBy-push (some t) e [] h = absurd h
  HeadBy-push (some t) e (f ∷ fs) h = ground arith

  HeadBy-cancel :
      (o : Option ℤ) (n : ℕ) (es : List (Event C)) → HeadBy o es → HeadBy o (cancel_in n es)
  unfolding cancel_in
  HeadBy-cancel none n es h = tt
  HeadBy-cancel (some t) n [] h = absurd h
  HeadBy-cancel (some t) n (e ∷ es) h = ground arith

  HeadBy-head : (es : List (Event C)) → HeadBy (head_time es) es
  HeadBy-head [] = tt
  HeadBy-head (e ∷ es) = omega arith

  ring_in-Punctual :
      (o : Option ℤ) (es : List (Event C)) (now : ℤ) (w : Wheel C)
      → w.events ≡ es
      → HeadBy o es
      → Punctual w
      → Punctual (ring_in o now w)
  unfolding ring_in fire_first fire
  ring_in-Punctual none es now w e h p = p
  ring_in-Punctual (some t) [] now w e h p = absurd h
  ring_in-Punctual (some t) (x ∷ es) now w e h p = elim (Bool-cases (leb_ℤ t now)) [
    | inl due ↦
        rw (due, e)
          (elim (Bool-cases (x.cancelled || not (is_some x.callback))) [
            | inl c ↦ rw c (record { set_for = tt; ran = p.ran; lost = (c, p.lost) })
            | inr c ↦ rw c (record {
              set_for = tt;
              ran = ((ground arith, ground arith), p.ran);
              lost = p.lost;
            })
          ])
    | inr early ↦ rw early p
  ]

  take-Punctual : (s : Step C) (w : Wheel C) → Punctual w → Punctual (take s w)
  unfolding take schedule cancel arm wake ring
  take-Punctual (call_schedule at callback) w p = record {
    set_for = HeadBy-push w.armed _ w.events p.set_for;
    ran = p.ran;
    lost = p.lost;
  }
  take-Punctual (call_cancel n) w p = record {
    set_for = HeadBy-cancel w.armed n w.events p.set_for;
    ran = p.ran;
    lost = p.lost;
  }
  take-Punctual run_arm w p = record {
    set_for = HeadBy-head (discard w.events w.dropped).0;
    ran = p.ran;
    lost = discard-lost w.events w.dropped p.lost;
  }
  take-Punctual run_wake w p = record { set_for = tt; ran = p.ran; lost = p.lost }
  take-Punctual (run_ring now) w p = ring_in-Punctual w.armed w.events now w refl p.set_for p

  all-Punctual : (ss : List (Step C)) (w : Wheel C) → Punctual w → Punctual (take_all ss w)
  unfolding take_all
  all-Punctual [] w p = p
  all-Punctual (s ∷ ss) w p = all-Punctual ss (take s w) (take-Punctual s w p)

  -- Whatever is scheduled and cancelled while Run waits, no callback runs before the time of its
  -- event, none runs that was cancelled before Run took it, and only events that were cancelled or
  -- have no callback are dropped.
  pub wheel-Punctual : (ss : List (Step C)) → Punctual (take_all ss new_wheel)
  wheel-Punctual ss = all-Punctual ss new_wheel (record { set_for = tt; ran = tt; lost = tt })
