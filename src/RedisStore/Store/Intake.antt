-- ===== src/RedisStore/Store/Intake.antt =====
-- Enqueue, Schedule, Claim and MoveReady.
use go_task_engine.Prelude.{ℕ, ◌+◌, ◌^◌, Option, none, some, List, [], ◌∷◌, if◌then◌else◌}
use go_task_engine.Prelude.Int.{ℤ, pos, ◌+ℤ◌, ◌-ℤ◌}
use go_task_engine.Prelude.Text.{Text}
use go_task_engine.Errors.{Error, plain, wrap, sentinel, task_exists, queue_empty}
use go_task_engine.Result.{Result, ok, err, ◌>>=◌, in_context}
use go_task_engine.Float.{Float64, scale}
use go_task_engine.Model.{TaskMessage, TaskState, is_zero, unix_milli, validate}
use go_task_engine.Redis.{Redis}
use go_task_engine.Redis.Keyspace.{ZName}
use go_task_engine.RedisStore.Scripts.Intake.{
  enqueue_script, schedule_script, claim_script, move_ready_script,
}
use go_task_engine.RedisStore.Store.Base.{Codec, Link, send, on_queue, settle, or_default, limit_of}

-- taskRank: -float64(priority)*1e15 + float64(milliseconds), which "%.3f" prints exactly.
unfoldable pub task_rank : Float64 → TaskMessage → ℤ
task_rank f msg = f.round (
    f.round (scale (10 ^ 15) (pos 0 -ℤ f.round msg.priority))
    +ℤ f.round (unix_milli msg.created_at))

module _ {B : Type 0} (r : Redis B) (json : Codec B) (f : Float64) where
  abbrev pub Space : Type 0
  Space = Text → r.Db

  -- Enqueue after Validate.
  unfoldable pub enqueue_valid :
      Link → TaskMessage → Result B → Space → (Option Error × TaskMessage) × Space
  enqueue_valid link msg (err e) sp = ((some (wrap "encode task" e), msg), sp)
  enqueue_valid link msg (ok encoded) sp =
      let (reply, sp') =
        on_queue msg.queue
          (send link (enqueue_script r msg.id encoded msg.priority (task_rank f msg))) sp in
      (
        settle "enqueue task" task_exists (λ m. record m { state = TaskState.pending }) msg reply,
        sp',
      )

  unfoldable pub enqueue_checked :
      Link → TaskMessage → Option Error → Space → (Option Error × TaskMessage) × Space
  unfolding enqueue_valid
  enqueue_checked link msg (some e) sp = ((some e, msg), sp)
  enqueue_checked link msg none sp = enqueue_valid link msg (json.marshal msg) sp

  unfoldable pub enqueue : Link → TaskMessage → Space → (Option Error × TaskMessage) × Space
  unfolding enqueue_checked
  enqueue link msg sp = enqueue_checked link msg (validate (some msg)) sp

  -- Schedule after its checks.
  unfoldable pub schedule_valid :
      Link → TaskMessage → Result B → Space → (Option Error × TaskMessage) × Space
  schedule_valid link msg (err e) sp = ((some (wrap "encode task" e), msg), sp)
  schedule_valid link msg (ok encoded) sp =
      let (reply, sp') =
        on_queue msg.queue
          (send link (
            schedule_script r msg.id encoded msg.priority (task_rank f msg)
              (unix_milli msg.run_at)))
          sp in
      (
        settle "schedule task" task_exists (λ m. record m { state = TaskState.scheduled }) msg
            reply,
        sp',
      )

  unfoldable pub schedule_checked :
      Link → TaskMessage → Option Error → Space → (Option Error × TaskMessage) × Space
  unfolding schedule_valid
  schedule_checked link msg (some e) sp = ((some e, msg), sp)
  schedule_checked link msg none sp =
      if is_zero msg.run_at
      then ((some (plain "scheduled task run time is required"), msg), sp)
      else schedule_valid link msg (json.marshal msg) sp

  unfoldable pub schedule : Link → TaskMessage → Space → (Option Error × TaskMessage) × Space
  unfolding schedule_checked
  schedule link msg sp = schedule_checked link msg (validate (some msg)) sp

  -- What Claim makes of the reply of its script.
  unfoldable pub claimed_message : Text → Result (Option B) → Result TaskMessage
  claimed_message attempt (err e) = err (wrap "claim task" e)
  claimed_message attempt (ok none) = err (sentinel queue_empty)
  claimed_message attempt (ok (some encoded)) = do
    msg ← in_context "decode claimed task" (json.unmarshal encoded)
    ok (record msg { state = TaskState.active; attempt_id = attempt })

  -- Claim; `attempt` is what newAttemptID returned, `standard` the lease duration of the store.
  unfoldable pub claim : Link → Result Text → ℤ → Text → ℤ → ℤ → Space → Result TaskMessage × Space
  unfolding claimed_message
  claim link (err e) standard queue now lease sp = (err (wrap "create claim attempt id" e), sp)
  claim link (ok attempt) standard queue now lease sp =
      let (reply, sp') =
        on_queue queue
          (send link (
            claim_script r (unix_milli now) (unix_milli (now +ℤ or_default standard lease))
              attempt))
          sp in
      (claimed_message attempt reply, sp')

  -- What a reply does to the loop of MoveReady.
  unfoldable pub move_on :
      Result ℕ → ℕ → Space → (ℕ → (ℕ × Option Error) × Space) → (ℕ × Option Error) × Space
  move_on (err e) moved sp rest = ((moved, some (wrap "move ready tasks" e)), sp)
  move_on (ok n) moved sp rest = rest (moved + n)

  -- One script run of MoveReady for each sorted set of each queue; it stops at the first error.
  unfoldable pub move_all :
      (Text → ZName → Link) → ℤ → ℕ → List (Text × ZName) → ℕ → Space → (ℕ × Option Error) × Space
  unfolding move_on
  move_all links now max [] moved sp = ((moved, none), sp)
  move_all links now max ((queue, source) ∷ rest) moved sp =
      let (reply, sp') =
        on_queue queue (send (links queue source) (move_ready_script r source (unix_milli now) max))
          sp in
      move_on reply moved sp' (λ n. move_all links now max rest n sp')

  abbrev pub sources : List Text → List (Text × ZName)
  sources [] = []
  sources (q ∷ qs) = (q, ZName.scheduled) ∷ (q, ZName.retry) ∷ sources qs

  unfoldable pub move_ready :
      (Text → ZName → Link) → ℤ → ℤ → List Text → Space → (ℕ × Option Error) × Space
  unfolding move_all
  move_ready links now limit queues sp = move_all links now (limit_of limit) (sources queues) 0 sp
