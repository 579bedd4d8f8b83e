-- ===== src/RedisStore/Transfer/DeadLetters.antt =====
-- replayArchivedScript, deleteArchivedScript and cleanupArchivedScript.
use go_task_engine.Prelude.{
  ℕ, ◌+◌, refl, List, [], ◌∷◌, Option, none, some, arith, leb, Bool-cases, inl, inr,
}
use go_task_engine.Prelude.Int.{ℤ}
use go_task_engine.Prelude.Text.{Text}
use go_task_engine.Redis.{Redis}
use go_task_engine.Redis.Reference.{reference}
use go_task_engine.RedisStore.Transfer.Agrees.{Agrees}
use go_task_engine.RedisStore.Scripts.DeadLetters.{
  replay_ranked, replay_archived_script, delete_archived_script, cleanup_body, cleanup_loop,
  cleanup_archived_script,
}

module _ {B : Type 0} (r : Redis B) where
  open r use {
    Db, view, hget_law, hset_law, del_law, lpush_law, zadd_law, zrem_reply, zrem_law,
    zrange_by_score_law,
  }

  replay_ranked-Agrees :
      (id : Text) (b : B) (o : Option ℤ) (m : Option Text) (d : Db)
      → Agrees r (replay_ranked r id b o m d) (replay_ranked (reference B) id b o m (view d))
  unfolding replay_ranked
  replay_ranked-Agrees id b none m d = (refl, refl)
  replay_ranked-Agrees id b (some s) m d =
      grind (arith, zrem_reply, zrem_law, hset_law, lpush_law, zadd_law)

  pub replay_archived-Agrees :
      (id : Text) (b : B) (d : Db)
      → Agrees r
          (replay_archived_script r id b d)
          (replay_archived_script (reference B) id b (view d))
  unfolding replay_archived_script
  replay_archived-Agrees id b d =
      grind (arith, hget_law, zrem_reply, zrem_law, hset_law, lpush_law, zadd_law)

  pub delete_archived-Agrees :
      (id : Text) (d : Db)
      → Agrees r (delete_archived_script r id d) (delete_archived_script (reference B) id (view d))
  unfolding delete_archived_script
  delete_archived-Agrees id d = grind (arith, hget_law, zrem_reply, zrem_law, del_law)

  cleanup_body-Agrees :
      (id : Text) (d : Db) → Agrees r (cleanup_body r id d) (cleanup_body (reference B) id (view d))
  unfolding cleanup_body
  cleanup_body-Agrees id d = grind (arith, hget_law, zrem_reply, zrem_law, del_law)

  cleanup_loop-Agrees :
      (max : ℕ) (ids : List Text) (n : ℕ) (d : Db)
      → Agrees r (cleanup_loop r max ids n d) (cleanup_loop (reference B) max ids n (view d))
  unfolding cleanup_loop
  cleanup_loop-Agrees max [] n d = (refl, refl)
  cleanup_loop-Agrees max (id ∷ ids) n d =
      let (same, left) = cleanup_body-Agrees id d in
      elim (Bool-cases (leb max n)) [
        | inl full ↦ rw full (refl, refl)
        | inr room ↦
            rw (room, ← same, ← left)
              (cleanup_loop-Agrees max ids (n + (cleanup_body r id d).0) (cleanup_body r id d).1)
      ]

  pub cleanup_archived-Agrees :
      (before : ℤ) (max : ℕ) (d : Db)
      → Agrees r
          (cleanup_archived_script r before max d)
          (cleanup_archived_script (reference B) before max (view d))
  unfolding cleanup_archived_script
  cleanup_archived-Agrees before max d = rw zrange_by_score_law (cleanup_loop-Agrees max _ 0 d)
