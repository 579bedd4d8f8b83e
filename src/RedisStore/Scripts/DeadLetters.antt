-- ===== src/RedisStore/Scripts/DeadLetters.antt =====
-- replayArchivedScript, deleteArchivedScript and cleanupArchivedScript.
use go_task_engine.Prelude.{ℕ, ◌+◌, not, Option, none, some, List, [], ◌∷◌, leb, if◌then◌else◌}
use go_task_engine.Prelude.Int.{ℤ}
use go_task_engine.Prelude.Text.{Text}
use go_task_engine.Model.{TaskState}
use go_task_engine.Redis.{Redis}
use go_task_engine.Redis.Keyspace.{ZName, LName, msg, state}
use go_task_engine.RedisStore.Scripts.Replies.{is_state, or_id}

module _ {B : Type 0} (r : Redis B) where
  open r use {Db, hget, hset, del, lpush, zadd, zrem, zrange_by_score}

  -- replayArchivedScript from `if not rank` on.
  unfoldable pub replay_ranked : Text → B → Option ℤ → Option Text → Db → ℕ × Db
  replay_ranked id encoded none member d = (0, d)
  replay_ranked id encoded (some score) member d =
      let (removed, d₁) = zrem ZName.archived id d in
      if removed
      then (let d₂ = hset id (msg encoded ∷ state TaskState.pending ∷ []) d₁ in
          let d₃ = lpush LName.pending id d₂ in
          (1, zadd ZName.pending_rank score (or_id member id) d₃))
      else (0, d₁)

  unfoldable pub replay_archived_script : Text → B → Db → ℕ × Db
  unfolding replay_ranked
  replay_archived_script id encoded d =
      if not (is_state TaskState.archived (hget id d).state)
      then (0, d)
      else replay_ranked id encoded (hget id d).rank (hget id d).rank_member d

  unfoldable pub delete_archived_script : Text → Db → ℕ × Db
  delete_archived_script id d =
      if not (is_state TaskState.archived (hget id d).state)
      then (0, d)
      else (let (removed, d₁) = zrem ZName.archived id d in
          if removed then (1, del id d₁) else (0, d₁))

  -- The body of the loop of cleanupArchivedScript; the reply is what it adds to `removed`.
  unfoldable pub cleanup_body : Text → Db → ℕ × Db
  cleanup_body id d =
      if is_state TaskState.archived (hget id d).state
      then (let (removed, d₁) = zrem ZName.archived id d in
          if removed then (1, del id d₁) else (0, d₁))
      else (0, d)

  unfoldable pub cleanup_loop : ℕ → List Text → ℕ → Db → ℕ × Db
  unfolding cleanup_body
  cleanup_loop max [] removed d = (removed, d)
  cleanup_loop max (id ∷ ids) removed d =
      let (n, d') = cleanup_body id d in
      let rest = cleanup_loop max ids (removed + n) d' in
      if leb max removed then (removed, d) else rest

  unfoldable pub cleanup_archived_script : ℤ → ℕ → Db → ℕ × Db
  unfolding cleanup_loop
  cleanup_archived_script before max d =
      cleanup_loop max (zrange_by_score ZName.archived before d) 0 d
