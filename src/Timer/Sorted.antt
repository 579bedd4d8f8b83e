-- ===== src/Timer/Sorted.antt =====
-- In which order Run takes events.
use go_task_engine.Prelude.{
  ℕ, ◌≡◌, refl, true, false, not, ◌||◌, Option, none, some, List, [], ◌∷◌, All, arith, Bool-cases,
  inl, inr, if◌then◌else◌, ◌==◌, is_some,
}
use go_task_engine.Prelude.Int.{ℤ, leb_ℤ}
use go_task_engine.Timer.{
  Event, Wheel, new_wheel, event_lt, push_event, schedule, cancel_in, cancel, discard, arm, wake,
  fire, fire_first, ring_in, ring, Step, call_schedule, call_cancel, run_arm, run_wake, run_ring,
  take, take_all,
}

module _ {C : Type 0} where
  -- No event comes before one that stands in front of it.
  abbrev pub IsSorted : List (Event C) → Type 0
  IsSorted [] = Unit
  IsSorted (e ∷ es) = All (λ (f : Event C). event_lt f e ≡ false) es × IsSorted es

  event_lt_asym : (e f : Event C) → event_lt e f ≡ true → event_lt f e ≡ false
  unfolding event_lt
  event_lt_asym e f h = ground arith

  event_lt_trans :
      (e f g : Event C) → event_lt f e ≡ false → event_lt g f ≡ false → event_lt g e ≡ false
  unfolding event_lt
  event_lt_trans e f g h k = ground arith

  All-after :
      (e f : Event C) (es : List (Event C))
      → event_lt f e ≡ false
      → All (λ (g : Event C). event_lt g f ≡ false) es
      → All (λ (g : Event C). event_lt g e ≡ false) es
  All-after e f [] h a = tt
  All-after e f (g ∷ es) h a = (event_lt_trans e f g h a.0, All-after e f es h a.1)

  All-push :
      (e f : Event C) (es : List (Event C))
      → event_lt f e ≡ false
      → All (λ (g : Event C). event_lt g e ≡ false) es
      → All (λ (g : Event C). event_lt g e ≡ false) (push_event f es)
  unfolding push_event
  All-push e f [] h a = (h, tt)
  All-push e f (g ∷ es) h a = elim (Bool-cases (event_lt f g)) [
    | inl c ↦ rw c (h, a)
    | inr c ↦ rw c (a.0, All-push e f es h a.1)
  ]

  push-IsSorted : (e : Event C) (es : List (Event C)) → IsSorted es → IsSorted (push_event e es)
  unfolding push_event
  push-IsSorted e [] h = (tt, tt)
  push-IsSorted e (f ∷ es) h = elim (Bool-cases (event_lt e f)) [
    | inl c ↦ let later = event_lt_asym e f c in rw c ((later, All-after e f es later h.0), h)
    | inr c ↦ rw c (All-push f e es c h.0, push-IsSorted e es h.1)
  ]

  -- An event that was cancelled or not.
  abbrev marked : ℕ → Event C → Event C
  marked n e = if e.sequence == n then record e { cancelled = true } else e

  marked-lt :
      (n : ℕ) (e f : Event C) → event_lt f e ≡ false → event_lt (marked n f) (marked n e) ≡ false
  unfolding event_lt
  marked-lt n e f h = ground arith

  All-cancel :
      (n : ℕ) (e : Event C) (es : List (Event C))
      → All (λ (f : Event C). event_lt f e ≡ false) es
      → All (λ (f : Event C). event_lt f (marked n e) ≡ false) (cancel_in n es)
  unfolding cancel_in
  All-cancel n e [] a = tt
  All-cancel n e (f ∷ es) a = (marked-lt n e f a.0, All-cancel n e es a.1)

  cancel-IsSorted : (n : ℕ) (es : List (Event C)) → IsSorted es → IsSorted (cancel_in n es)
  unfolding cancel_in
  cancel-IsSorted n [] h = tt
  cancel-IsSorted n (e ∷ es) h = (All-cancel n e es h.0, cancel-IsSorted n es h.1)

  discard-IsSorted : (es ds : List (Event C)) → IsSorted es → IsSorted (discard es ds).0
  unfolding discard
  discard-IsSorted [] ds h = tt
  discard-IsSorted (e ∷ es) ds h = elim (Bool-cases e.cancelled) [
    | inl c ↦ simp c (discard-IsSorted es (e ∷ ds) h.1)
    | inr c ↦ simp c h
  ]

  first-IsSorted :
      (now : ℤ) (es : List (Event C)) (w : Wheel C)
      → w.events ≡ es
      → IsSorted es
      → IsSorted (fire_first now es w).events
  unfolding fire_first fire
  first-IsSorted now [] w e h = rw e h
  first-IsSorted now (x ∷ es) w e h = elim (Bool-cases (x.cancelled || not (is_some x.callback))) [
    | inl c ↦ simp c h.1
    | inr c ↦ simp c h.1
  ]

  ring-IsSorted :
      (o : Option ℤ) (now : ℤ) (w : Wheel C) → IsSorted w.events → IsSorted (ring_in o now w).events
  unfolding ring_in
  ring-IsSorted none now w h = h
  ring-IsSorted (some due) now w h = elim (Bool-cases (leb_ℤ due now)) [
    | inl c ↦ rw c (first-IsSorted now w.events (record w { armed = none }) refl h)
    | inr c ↦ rw c h
  ]

  take-IsSorted : (s : Step C) (w : Wheel C) → IsSorted w.events → IsSorted (take s w).events
  unfolding take schedule cancel arm wake ring
  take-IsSorted (call_schedule at callback) w h = push-IsSorted _ w.events h
  take-IsSorted (call_cancel n) w h = cancel-IsSorted n w.events h
  take-IsSorted run_arm w h = discard-IsSorted w.events w.dropped h
  take-IsSorted run_wake w h = h
  take-IsSorted (run_ring now) w h = ring-IsSorted w.armed now w h

  all-IsSorted :
      (ss : List (Step C)) (w : Wheel C) → IsSorted w.events → IsSorted (take_all ss w).events
  unfolding take_all
  all-IsSorted [] w h = h
  all-IsSorted (s ∷ ss) w h = all-IsSorted ss (take s w) (take-IsSorted s w h)

  -- Whatever is scheduled and cancelled while Run waits, the event that Run takes next is one before
  -- which no other queued event comes, by time and then by the order of scheduling, and so on for
  -- those behind it.
  pub wheel-IsSorted : (ss : List (Step C)) → IsSorted (take_all ss new_wheel).events
  wheel-IsSorted ss = all-IsSorted ss new_wheel tt
