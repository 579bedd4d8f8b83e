-- ===== src/RedisStore/Scripts/Intake.antt =====
-- enqueueScript, scheduleScript, claimScript, moveReadyScript and moveOneScript.
use go_task_engine.Prelude.{ℕ, ◌+◌, Option, none, some, List, [], ◌∷◌, leb, if◌then◌else◌}
use go_task_engine.Prelude.Int.{ℤ}
use go_task_engine.Prelude.Text.{Text}
use go_task_engine.Model.{TaskState}
use go_task_engine.Redis.{Redis}
use go_task_engine.Redis.Keyspace.{
  ZName, LName, msg, state, priority, rank, active_since, rank_member, attempt_id,
}
use go_task_engine.RedisStore.Scripts.Members.{rank_text, candidate}
use go_task_engine.RedisStore.Scripts.Replies.{is_text, or_id}

module _ {B : Type 0} (r : Redis B) where
  open r use {
    Db, exists, hget, hset, hdel_attempt_id, del, incr, lpush, rpush, lrem, zadd, zrem, zrange,
    zrange_by_score,
  }

  unfoldable pub enqueue_script : Text → B → ℤ → ℤ → Db → ℕ × Db
  enqueue_script id encoded prio score d =
      if exists id d
      then (0, d)
      else (let (n, d₁) = incr d in
          let member = rank_text n id in
          let d₂ =
            hset id
              (msg encoded
                ∷ state TaskState.pending
                ∷ priority prio
                ∷ rank score
                ∷ rank_member member
                ∷ [])
              d₁ in
          let d₃ = lpush LName.pending id d₂ in (1, zadd ZName.pending_rank score member d₃))

  unfoldable pub schedule_script : Text → B → ℤ → ℤ → ℤ → Db → ℕ × Db
  schedule_script id encoded prio score run_at d =
      if exists id d
      then (0, d)
      else (let (n, d₁) = incr d in
          let d₂ =
            hset id
              (msg encoded
                ∷ state TaskState.scheduled
                ∷ priority prio
                ∷ rank score
                ∷ rank_member (rank_text n id)
                ∷ [])
              d₁ in
          (1, zadd ZName.scheduled run_at id d₂))

  -- The part of claimScript after the task was chosen.
  unfoldable pub claim_task : Text → ℤ → ℤ → Text → Option B → Db → Option B × Db
  claim_task id now expires attempt none d = (none, d)
  claim_task id now expires attempt (some encoded) d =
      let d₁ = hset id (state TaskState.active ∷ active_since now ∷ attempt_id attempt ∷ []) d in
      let d₂ = rpush LName.active id d₁ in (some encoded, zadd ZName.lease expires id d₂)

  -- The part of claimScript after ZRANGE; `none` is the reply {0, ""}.
  unfoldable pub claim_members : List Text → ℤ → ℤ → Text → Db → Option B × Db
  unfolding claim_task
  claim_members [] now expires attempt d = (none, d)
  claim_members (member ∷ rest) now expires attempt d =
      let (removed, d₁) = zrem ZName.pending_rank member d in
      if removed
      then (let own = is_text member (hget (candidate member) d₁).rank_member in
          let id = if own then candidate member else member in
          let d₂ = lrem LName.pending id d₁ in
          claim_task id now expires attempt (hget id d₂).msg d₂)
      else (none, d₁)

  unfoldable pub claim_script : ℤ → ℤ → Text → Db → Option B × Db
  unfolding claim_members
  claim_script now expires attempt d =
      claim_members (zrange ZName.pending_rank (ℤ.pos 0) (ℤ.pos 0) d) now expires attempt d

  -- What moveReadyScript and moveOneScript do with the rank of a task.
  unfoldable pub requeue_ranked : Text → Option ℤ → Option Text → Db → ℕ × Db
  requeue_ranked id none member d = (0, d)
  requeue_ranked id (some score) member d =
      let d₁ = hset id (state TaskState.pending ∷ []) d in
      let d₂ = lpush LName.pending id d₁ in (1, zadd ZName.pending_rank score (or_id member id) d₂)

  -- The body of the loop of moveReadyScript; the reply is what it adds to `moved`.
  unfoldable pub move_ready_body : ZName → Text → Db → ℕ × Db
  unfolding requeue_ranked
  move_ready_body source id d =
      let (removed, d₁) = zrem source id d in
      if removed then requeue_ranked id (hget id d₁).rank (hget id d₁).rank_member d₁ else (0, d₁)

  unfoldable pub move_ready_loop : ZName → ℕ → List Text → ℕ → Db → ℕ × Db
  unfolding move_ready_body
  move_ready_loop source max [] moved d = (moved, d)
  move_ready_loop source max (id ∷ ids) moved d =
      let (n, d') = move_ready_body source id d in
      let rest = move_ready_loop source max ids (moved + n) d' in
      if leb max moved then (moved, d) else rest

  unfoldable pub move_ready_script : ZName → ℤ → ℕ → Db → ℕ × Db
  unfolding move_ready_loop
  move_ready_script source now max d = move_ready_loop source max (zrange_by_score source now d) 0 d

  -- moveOneScript, for one id.
  unfoldable pub move_one_script : ZName → Text → Db → ℕ × Db
  move_one_script source id d =
      let (removed, d₁) = zrem source id d in
      if removed
      then (let score = (hget id d₁).rank in
          let member = (hget id d₁).rank_member in
          elim score [
            | none ↦ (0, d₁)
            | some n ↦
                let d₂ = hset id (state TaskState.pending ∷ []) d₁ in
                let d₃ = lpush LName.pending id d₂ in
                (1, zadd ZName.pending_rank n (or_id member id) d₃)
          ])
      else (0, d₁)
