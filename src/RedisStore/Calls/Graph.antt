-- ===== src/RedisStore/Calls/Graph.antt =====
-- The states that a task goes through: the diagram of docs/redis-state-machine.md with the dead
-- letters that can be replayed and deleted. `none` is a task that is not there.
use go_task_engine.Prelude.{
  ℕ, ◌≡◌, ◌≢◌, ◌⊎◌, ◌∙◌, sym, refl, Option, none, some, List, [], ◌∷◌, arith, inl, inr,
}
use go_task_engine.Prelude.Int.{ℤ}
use go_task_engine.Prelude.Text.{Text, text_eq_iff}
use go_task_engine.Model.{
  TaskState, pending, scheduled, active, archived, completed, retry as retrying,
}
use go_task_engine.Redis.{Redis}
use go_task_engine.Redis.Keyspace.{View, ZName}
use go_task_engine.Redis.Reference.{reference}
use go_task_engine.RedisStore.Scripts.Members.{candidate}
use go_task_engine.RedisStore.Scripts.Replies.{is_text_iff}
use go_task_engine.RedisStore.Scripts.Intake.{
  enqueue_script, schedule_script, claim_members, claim_script, move_ready_body, move_ready_script,
}
use go_task_engine.RedisStore.Scripts.Finish.{
  ack_script, retry_script, archive_script, requeue_script, extend_body, extend_lease_script,
}
use go_task_engine.RedisStore.Scripts.DeadLetters.{
  replay_archived_script, delete_archived_script, cleanup_body, cleanup_archived_script,
}
use go_task_engine.RedisStore.Invariant.Records.{Inv}
use go_task_engine.RedisStore.Invariant.Intake.{IsSource, move_ready_body-Inv}
use go_task_engine.RedisStore.Scripts.Loops.{
  move_ready_loop-keeps, extend_loop-keeps, cleanup_loop-keeps,
}
use go_task_engine.RedisStore.Calls.Order.{step-Agrees, run-Inv}
use go_task_engine.RedisStore.Calls.{
  Call, enqueue, schedule, claim, move_scheduled, move_retry, ack, retry, archive, requeue,
  extend_lease, replay, delete, cleanup, step, run,
}

module _ {B : Type 0} where
  -- The arrow of the diagram along which a call may move a task, by its id and its states before
  -- and after.
  abbrev pub Arrow : Call B → Text → Option TaskState → Option TaskState → Type 0
  Arrow (enqueue j b p k) id s t = (j ≡ id) × (s ≡ none) × (t ≡ some pending)
  Arrow (schedule j b p k r) id s t = (j ≡ id) × (s ≡ none) × (t ≡ some scheduled)
  Arrow (claim n e a) id s t = (s ≡ some pending) × (t ≡ some active)
  Arrow (move_scheduled now max) id s t = (s ≡ some scheduled) × (t ≡ some pending)
  Arrow (move_retry now max) id s t = (s ≡ some retrying) × (t ≡ some pending)
  Arrow (ack j b at a) id s t = (j ≡ id) × (s ≡ some active) × (t ≡ some completed)
  Arrow (retry j b at m a) id s t = (j ≡ id) × (s ≡ some active) × (t ≡ some retrying)
  Arrow (archive j b m at a) id s t = (j ≡ id) × (s ≡ some active) × (t ≡ some archived)
  Arrow (requeue j a) id s t = (j ≡ id) × (s ≡ some active) × (t ≡ some pending)
  Arrow (extend_lease e tasks) id s t = ⊥
  Arrow (replay j b) id s t = (j ≡ id) × (s ≡ some archived) × (t ≡ some pending)
  Arrow (delete j) id s t = (j ≡ id) × (s ≡ some archived) × (t ≡ none)
  Arrow (cleanup before max) id s t = (s ≡ some archived) × (t ≡ none)

  -- The task stays as it is, or takes the arrow of the call.
  abbrev pub Moves : Call B → Text → Option TaskState → Option TaskState → Type 0
  Moves c id s t = (t ≡ s) ⊎ Arrow c id s t

-- Where a loop brings a task: it stays, or goes once from one state to another.
abbrev Once : Option TaskState → Option TaskState → Option TaskState → Option TaskState → Type 0
Once a b s t = (t ≡ s) ⊎ ((s ≡ a) × (t ≡ b))

Once-trans : (a b s t u : Option TaskState) → a ≢ b → Once a b s t → Once a b t u → Once a b s u
Once-trans a b s t u d (inl e) (inl f) = inl (f ∙ e)
Once-trans a b s t u d (inl e) (inr (f, g)) = inr (sym e ∙ f, g)
Once-trans a b s t u d (inr (e, f)) (inl g) = inr (e, g ∙ f)
Once-trans a b s t u d (inr (e, f)) (inr (g, h)) = absurd (d (sym g ∙ f))

source_state : ZName → Option TaskState
source_state ZName.scheduled = some scheduled
source_state z = some retrying

source-pending : (z : ZName) → source_state z ≢ some pending
unfolding source_state
source-pending ZName.scheduled e = ground (arith, e)
source-pending _ e = ground (arith, e)

module _ {B : Type 0} (id : Text) where
  abbrev state_of : View B → Option TaskState
  state_of v = (v.hash id).state

  claim_members-Moves :
      (l : List Text) (n t : ℤ) (a : Text) (v : View B)
      → Inv v
      → Once
          (some pending)
          (some active)
          (state_of v)
          (state_of (claim_members (reference B) l n t a v).1)
  unfolding claim_members
  claim_members-Moves [] n t a v h = inl refl
  claim_members-Moves (m ∷ l) n t a v h = ground (
    arith,
    h.located (candidate m),
    h.known m,
    text_eq_iff (candidate m) id,
    is_text_iff m (v.hash (candidate m)).rank_member,
  )

  move_ready_body-Once :
      (z : ZName) (j : Text) (v : View B)
      → IsSource z
      → Inv v
      → Once
          (source_state z)
          (some pending)
          (state_of v)
          (state_of (move_ready_body (reference B) z j v).1)
  unfolding move_ready_body source_state
  move_ready_body-Once ZName.scheduled j v w h = ground (arith, h.located j, text_eq_iff j id)
  move_ready_body-Once ZName.retry j v w h = ground (arith, h.located j, text_eq_iff j id)
  move_ready_body-Once _ j v w h = absurd w

  cleanup_body-Once :
      (j : Text) (v : View B)
      → Once (some archived) none (state_of v) (state_of (cleanup_body (reference B) j v).1)
  unfolding cleanup_body
  cleanup_body-Once j v = ground (arith, text_eq_iff j id)

  extend_body-same :
      (t : ℤ) (j a : Text) (v : View B)
      → state_of (extend_body (reference B) t j a v).1 ≡ state_of v
  unfolding extend_body
  extend_body-same t j a v = ground arith

  move_ready-Once :
      (z : ZName) (now : ℤ) (max : ℕ) (v : View B)
      → IsSource z
      → Inv v
      → Once
          (source_state z)
          (some pending)
          (state_of v)
          (state_of (move_ready_script (reference B) z now max v).1)
  unfolding move_ready_script
  move_ready-Once z now max v w h =
      (move_ready_loop-keeps (reference B)
        (λ u. Inv u × Once (source_state z) (some pending) (state_of v) (state_of u)) z max
        (λ j u k. (
          move_ready_body-Inv z j u w k.0,
          Once-trans _ _ _ _ _ (source-pending z) k.1 (move_ready_body-Once z j u w k.0),
        ))
        _ 0 v (h, inl refl)).1

  reference-step-Moves :
      (c : Call B) (v : View B)
      → Inv v
      → Moves c id (state_of v) (state_of (step (reference B) c v))
  unfolding step enqueue_script schedule_script claim_script ack_script retry_script archive_script
      requeue_script extend_lease_script replay_archived_script delete_archived_script
      cleanup_archived_script source_state
  reference-step-Moves (enqueue j b p s) v h = ground (arith, h.located j, text_eq_iff j id)
  reference-step-Moves (schedule j b p s t) v h = ground (arith, h.located j, text_eq_iff j id)
  reference-step-Moves (claim n t a) v h = claim_members-Moves _ n t a v h
  reference-step-Moves (move_scheduled now max) v h = move_ready-Once ZName.scheduled now max v tt h
  reference-step-Moves (move_retry now max) v h = move_ready-Once ZName.retry now max v tt h
  reference-step-Moves (extend_lease t tasks) v h = inl (
      extend_loop-keeps (reference B) (λ u. state_of u ≡ state_of v) t
        (λ j a u k. extend_body-same t j a u ∙ k) tasks 0 v refl)
  reference-step-Moves (cleanup before max) v h =
      cleanup_loop-keeps (reference B) (λ u. Once (some archived) none (state_of v) (state_of u))
        max
        (λ j u k.
          Once-trans (some archived) none _ _ _ (λ e. ground (arith, e)) k (cleanup_body-Once j u))
        _ 0 v (inl refl)
  reference-step-Moves (ack j b at a) v h = ground (arith, text_eq_iff j id)
  reference-step-Moves (retry j b at m a) v h = ground (arith, text_eq_iff j id)
  reference-step-Moves (archive j b m at a) v h = ground (arith, text_eq_iff j id)
  reference-step-Moves (requeue j a) v h = ground (arith, text_eq_iff j id)
  reference-step-Moves (replay j b) v h = ground (arith, text_eq_iff j id)
  reference-step-Moves (delete j) v h = ground (arith, text_eq_iff j id)

module _ {B : Type 0} (r : Redis B) where
  -- From keys in order, whatever calls were made, the next call leaves the state of a task as it is or
  -- moves the task along the one arrow of the call: a new task under its id to pending or scheduled, a
  -- claim from pending to active, a move from scheduled or from retry to pending, an ending of the task
  -- from active to its state, a replay from archived to pending, and a deletion from archived to
  -- nothing; the extension of a lease moves no task.
  pub run-Moves :
      (cs : List (Call B)) (c : Call B) (d : r.Db) (id : Text)
      → Inv (r.view d)
      → Moves c id
          ((r.view (run r cs d)).hash id).state
          ((r.view (step r c (run r cs d))).hash id).state
  run-Moves cs c d id h =
      rw (step-Agrees r c (run r cs d))
        (reference-step-Moves id c (r.view (run r cs d)) (run-Inv r cs d h))
