-- ===== src/RedisStore/Scripts/Finish.antt =====
-- ackScript, retryScript, archiveScript, requeueScript and extendLeaseScript: what the holder of an
-- attempt may do.
use go_task_engine.Prelude.{ℕ, ◌+◌, not, Option, none, some, List, [], ◌∷◌, if◌then◌else◌}
use go_task_engine.Prelude.Int.{ℤ}
use go_task_engine.Prelude.Text.{Text}
use go_task_engine.Model.{TaskState}
use go_task_engine.Redis.{Redis}
use go_task_engine.Redis.Keyspace.{ZName, LName, msg, state, completed_at, retry_at, last_error}
use go_task_engine.RedisStore.Scripts.Replies.{is_state, is_text, or_id}

module _ {B : Type 0} (r : Redis B) where
  open r use {Db, hget, hset, hdel_attempt_id, lpush, lrem, zadd, zrem}

  unfoldable pub ack_script : Text → B → ℤ → Text → Db → ℕ × Db
  ack_script id encoded at attempt d =
      if not (is_state TaskState.active (hget id d).state)
      then (0, d)
      else if not (is_text attempt (hget id d).attempt_id)
      then (0, d)
      else (let d₁ = lrem LName.active id d in
          let d₂ = (zrem ZName.lease id d₁).1 in
          let d₃ = hset id (msg encoded ∷ state TaskState.completed ∷ completed_at at ∷ []) d₂ in
          (1, hdel_attempt_id id d₃))

  unfoldable pub retry_script : Text → B → ℤ → Text → Text → Db → ℕ × Db
  retry_script id encoded at reason attempt d =
      if not (is_state TaskState.active (hget id d).state)
      then (0, d)
      else if not (is_text attempt (hget id d).attempt_id)
      then (0, d)
      else (let d₁ = lrem LName.active id d in
          let d₂ = (zrem ZName.lease id d₁).1 in
          let d₃ =
            hset id (msg encoded ∷ state TaskState.retry ∷ retry_at at ∷ last_error reason ∷ [])
              d₂ in
          let d₄ = hdel_attempt_id id d₃ in (1, zadd ZName.retry at id d₄))

  unfoldable pub archive_script : Text → B → Text → ℤ → Text → Db → ℕ × Db
  archive_script id encoded reason at attempt d =
      if not (is_state TaskState.active (hget id d).state)
      then (0, d)
      else if not (is_text attempt (hget id d).attempt_id)
      then (0, d)
      else (let d₁ = lrem LName.active id d in
          let d₂ = (zrem ZName.lease id d₁).1 in
          let d₃ = hset id (msg encoded ∷ state TaskState.archived ∷ last_error reason ∷ []) d₂ in
          let d₄ = hdel_attempt_id id d₃ in (1, zadd ZName.archived at id d₄))

  -- ZADD with the rank that HGET gave. A missing rank is `false` in Lua, with which the call raises
  -- an error; what the script wrote before stays.
  unfoldable pub zadd_rank : Option ℤ → Text → Db → Option ℕ × Db
  zadd_rank none member d = (none, d)
  zadd_rank (some score) member d = (some 1, zadd ZName.pending_rank score member d)

  unfoldable pub requeue_script : Text → Text → Db → Option ℕ × Db
  unfolding zadd_rank
  requeue_script id attempt d =
      if not (is_state TaskState.active (hget id d).state)
      then (some 0, d)
      else if not (is_text attempt (hget id d).attempt_id)
      then (some 0, d)
      else (let score = (hget id d).rank in
          let member = or_id (hget id d).rank_member id in
          let d₁ = lrem LName.active id d in
          let d₂ = (zrem ZName.lease id d₁).1 in
          let d₃ = hset id (state TaskState.pending ∷ []) d₂ in
          let d₄ = hdel_attempt_id id d₃ in
          let d₅ = lpush LName.pending id d₄ in zadd_rank score member d₅)

  -- The body of the loop of extendLeaseScript; the reply is what it adds to `extended`.
  unfoldable pub extend_body : ℤ → Text → Text → Db → ℕ × Db
  extend_body expires id attempt d =
      if is_state TaskState.active (hget id d).state
      then (if is_text attempt (hget id d).attempt_id
          then (1, zadd ZName.lease expires id d)
          else (0, d))
      else (0, (zrem ZName.lease id d).1)

  unfoldable pub extend_loop : ℤ → List (Text × Text) → ℕ → Db → ℕ × Db
  unfolding extend_body
  extend_loop expires [] extended d = (extended, d)
  extend_loop expires ((id, attempt) ∷ tasks) extended d =
      let (n, d') = extend_body expires id attempt d in extend_loop expires tasks (extended + n) d'

  unfoldable pub extend_lease_script : ℤ → List (Text × Text) → Db → ℕ × Db
  unfolding extend_loop
  extend_lease_script expires tasks d = extend_loop expires tasks 0 d
