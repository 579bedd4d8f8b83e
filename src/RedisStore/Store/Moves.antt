-- ===== src/RedisStore/Store/Moves.antt =====
-- What one script of MoveReady leaves of the queues.
use go_task_engine.Prelude.{
  ℕ, ◌≤◌, ◌≡◌, ◌∙◌, refl, sym, ap, subst, Bool, true, false, ◌&&◌, ◌||◌, some, List, [], ◌∷◌,
  if◌then◌else◌, Bool-cases, inl, inr, arith, is_some, length,
}
use go_task_engine.Prelude.Int.{ℤ, ◌≤ℤ◌}
use go_task_engine.Prelude.Text.{Text, text_eq, text_eq→eq, text_eq_refl}
use go_task_engine.Model.{pending, unix_milli}
use go_task_engine.Redis.{Redis}
use go_task_engine.Redis.Keyspace.{View, ZName, scheduled, retry, get_zset, zscore, score_range}
use go_task_engine.Redis.Ranges.{has-score_range}
use go_task_engine.RedisStore.Scripts.Intake.{move_ready_script}
use go_task_engine.RedisStore.Transfer.Intake.{move_ready-Agrees}
use go_task_engine.RedisStore.Invariant.Records.{Inv}
use go_task_engine.RedisStore.Invariant.Intake.{IsSource, move_ready-Inv}
use go_task_engine.RedisStore.Calls.Moved.{opposite, script-Moved, script-pending, script-other}

-- Whether a sorted set is the one.
abbrev pub same_source : ZName → ZName → Bool
same_source scheduled scheduled = true
same_source retry retry = true
same_source y z = false

-- Whether a script runs for this queue and this set.
abbrev pub visits : Text → ZName → List (Text × ZName) → Bool
visits q z [] = false
visits q z ((p, y) ∷ l) = (text_eq p q && same_source y z) || visits q z l

module _ {B : Type 0} (r : Redis B) (now : ℤ) (max : ℕ) where
  abbrev pub Space : Type 0
  Space = Text → r.Db

  -- What one script leaves.
  abbrev pub moved_by : Text → ZName → Space → Space
  moved_by p y sp j =
      if text_eq p j then (move_ready_script r y (unix_milli now) max (sp p)).1 else sp j

  abbrev pub AllInv : Space → Type 0
  AllInv sp = (q : Text) → Inv (r.view (sp q))

  script-Inv :
      (y : ZName) (d : r.Db)
      → IsSource y
      → Inv (r.view d)
      → Inv (r.view (move_ready_script r y (unix_milli now) max d).1)
  script-Inv y d w h =
      subst Inv (sym (move_ready-Agrees r y (unix_milli now) max d).1)
        (move_ready-Inv y (unix_milli now) max (r.view d) w h)

  pub moved-Inv :
      (p : Text) (y : ZName) (sp : Space) → IsSource y → AllInv sp → AllInv (moved_by p y sp)
  moved-Inv p y sp w h q = elim (Bool-cases (text_eq p q)) [
    | inl here ↦ rw here (script-Inv y (sp p) w (h p))
    | inr other ↦ rw other (h q)
  ]

  -- A task is pending in a queue.
  abbrev pub IsPending : Text → Text → Space → Type 0
  IsPending q id sp = ((r.view (sp q)).hash id).state ≡ some pending

  script-IsPending :
      (y : ZName) (id : Text) (d : r.Db)
      → IsSource y
      → Inv (r.view d)
      → ((r.view d).hash id).state ≡ some pending
      → ((r.view (move_ready_script r y (unix_milli now) max d).1).hash id).state ≡ some pending
  script-IsPending y id d w h e =
      ap (λ (v : View B). (v.hash id).state) (move_ready-Agrees r y (unix_milli now) max d).1
      ∙ script-pending y (unix_milli now) max id (r.view d) w h e

  pub moved-IsPending :
      (p : Text) (y : ZName) (q id : Text) (sp : Space)
      → IsSource y
      → AllInv sp
      → IsPending q id sp
      → IsPending q id (moved_by p y sp)
  moved-IsPending p y q id sp w h e = elim (Bool-cases (text_eq p q)) [
    | inl here ↦ rw here (
        script-IsPending y id (sp p) w (h p)
          (subst (λ (x : Text). IsPending x id sp) (sym (text_eq→eq p q here)) e))
    | inr other ↦ rw other e
  ]

  -- A task is due in a set of a queue, of which no more are due than the scripts take.
  pub record IsDue (q : Text) (z : ZName) (id : Text) (sp : Space) : Type 0 where
    pub at : ℤ
    pub waits : zscore id (get_zset z (r.view (sp q))) ≡ some at
    pub due : at ≤ℤ unix_milli now
    pub few : length (score_range (unix_milli now) (get_zset z (r.view (sp q)))) ≤ max

  due-IsPending :
      (q : Text) (z : ZName) (id : Text) (sp : Space)
      → IsSource z
      → AllInv sp
      → IsDue q z id sp
      → ((r.view (move_ready_script r z (unix_milli now) max (sp q)).1).hash id).state
        ≡ some pending
  due-IsPending q z id sp w h k =
      ap (λ (v : View B). (v.hash id).state) (move_ready-Agrees r z (unix_milli now) max (sp q)).1
      ∙ (script-Moved z (unix_milli now) max id (r.view (sp q)) w (h q) k.few).moved
          (has-score_range (unix_milli now) k.at id (get_zset z (r.view (sp q))) k.waits k.due)
          (ap is_some k.waits)

  IsDue-same :
      (q : Text) (z : ZName) (id : Text) (sp sp' : Space)
      → get_zset z (r.view (sp' q)) ≡ get_zset z (r.view (sp q))
      → IsDue q z id sp
      → IsDue q z id sp'
  IsDue-same q z id sp sp' e k = record {
    at = k.at;
    waits = rw e k.waits;
    due = k.due;
    few = rw e k.few;
  }

  opposite-eq : (y z : ZName) → IsSource y → IsSource z → same_source y z ≡ false → opposite y ≡ z
  opposite-eq scheduled retry w k e = refl
  opposite-eq retry scheduled w k e = refl
  opposite-eq scheduled scheduled w k e = cc
  opposite-eq retry retry w k e = cc
  opposite-eq scheduled z w k e = absurd k
  opposite-eq retry z w k e = absurd k
  opposite-eq _ z w k e = absurd w

  set-same :
      (p : Text) (y z : ZName) (sp : Space)
      → IsSource y
      → IsSource z
      → AllInv sp
      → same_source y z ≡ false
      → get_zset z (r.view (moved_by p y sp p)) ≡ get_zset z (r.view (sp p))
  set-same p y z sp w k h e = rw (text_eq_refl p) (
      subst
        (λ (x : ZName).
          get_zset x (r.view (move_ready_script r y (unix_milli now) max (sp p)).1)
          ≡ get_zset x (r.view (sp p)))
        (opposite-eq y z w k e)
        (ap (get_zset (opposite y)) (move_ready-Agrees r y (unix_milli now) max (sp p)).1
          ∙ script-other y (unix_milli now) max (r.view (sp p)) w (h p)))

  -- A script of another queue or of the other set leaves the task due.
  pub moved-IsDue :
      (p : Text) (y : ZName) (q : Text) (z : ZName) (id : Text) (sp : Space)
      → IsSource y
      → IsSource z
      → AllInv sp
      → (text_eq p q && same_source y z) ≡ false
      → IsDue q z id sp
      → IsDue q z id (moved_by p y sp)
  moved-IsDue p y q z id sp w k h e d = elim (Bool-cases (text_eq p q)) [
    | inl here ↦
        IsDue-same q z id sp _
          (subst
            (λ (x : Text). get_zset z (r.view (moved_by p y sp x)) ≡ get_zset z (r.view (sp x)))
            (text_eq→eq p q here) (set-same p y z sp w k h (ground arith)))
          d
    | inr other ↦ IsDue-same q z id sp _ (rw other refl) d
  ]

  same_source-eq : (y z : ZName) → same_source y z ≡ true → y ≡ z
  same_source-eq scheduled scheduled e = refl
  same_source-eq retry retry e = refl
  same_source-eq y z e = cc

  pub moved-here :
      (p : Text) (y : ZName) (q : Text) (z : ZName) (id : Text) (sp : Space)
      → IsSource z
      → AllInv sp
      → (text_eq p q && same_source y z) ≡ true
      → IsDue q z id sp
      → IsPending q id (moved_by p y sp)
  moved-here p y q z id sp k h e d =
      subst (λ (x : ZName). IsPending q id (moved_by p x sp))
        (sym (same_source-eq y z (ground arith)))
        (subst (λ (x : Text). IsPending q id (moved_by x z sp))
          (sym (text_eq→eq p q (ground arith)))
          (rw (text_eq_refl q) (due-IsPending q z id sp k h d)))
