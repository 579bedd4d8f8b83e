-- ===== src/Redis.antt =====
-- The Redis commands that internal/redisstore/rdb.go uses, as an interface: the server is not part
-- of the repository, so it is a parameter with the documented behaviour of each command as a law.
-- A database holds the keys of one queue, which share the prefix `gte:{queue}:`. Each key is used
-- with the commands of one type only, so no command meets a key of another type.
pub mod Keyspace
pub mod Reference
pub mod SortedSets
pub mod Order
pub mod Ranges
pub mod Lists
use go_task_engine.Prelude.{ℕ, suc, ◌≡◌, Bool, List, is_some}
use go_task_engine.Prelude.Int.{ℤ}
use go_task_engine.Prelude.Text.{Text}
use go_task_engine.Redis.Keyspace.{
  View, length, TaskHash, FieldValue, ZName, LName, Entry, get_zset, put_zset, get_list, put_list,
  set_fields, clear_attempt, empty_hash, put_hash, has_field, zscore, zinsert, zdelete, remove_one,
  rank_range, score_range, lpush_to, rpush_to,
}

pub record Redis (B : Type 0) : Type 1 where
  pub Db : Type 0
  -- What the keys hold.
  pub view : Db → View B
  pub exists : Text → Db → Bool
  pub hget : Text → Db → TaskHash B
  pub hset : Text → List (FieldValue B) → Db → Db
  pub hdel_attempt_id : Text → Db → Db
  pub del : Text → Db → Db
  pub incr : Db → ℕ × Db
  pub lpush : LName → Text → Db → Db
  pub rpush : LName → Text → Db → Db
  pub lrem : LName → Text → Db → Db
  pub zadd : ZName → ℤ → Text → Db → Db
  pub zrem : ZName → Text → Db → Bool × Db
  pub zrange : ZName → ℤ → ℤ → Db → List Text
  pub zrange_by_score : ZName → ℤ → Db → List Text
  pub zcard : ZName → Db → ℕ
  pub exists_law : (id : Text) (d : Db) → exists id d ≡ has_field ((view d).hash id)
  pub hget_law : (id : Text) (d : Db) → hget id d ≡ (view d).hash id
  pub hset_law :
      (id : Text) (fs : List (FieldValue B)) (d : Db)
      → view (hset id fs d) ≡ put_hash id (set_fields fs ((view d).hash id)) (view d)
  pub hdel_law :
      (id : Text) (d : Db)
      → view (hdel_attempt_id id d) ≡ put_hash id (clear_attempt ((view d).hash id)) (view d)
  pub del_law : (id : Text) (d : Db) → view (del id d) ≡ put_hash id empty_hash (view d)
  pub incr_reply : (d : Db) → (incr d).0 ≡ suc (view d).sequence
  pub incr_law : (d : Db) → view (incr d).1 ≡ record (view d) { sequence = suc (view d).sequence }
  pub lpush_law :
      (k : LName) (m : Text) (d : Db)
      → view (lpush k m d) ≡ put_list k (lpush_to m (get_list k (view d))) (view d)
  pub rpush_law :
      (k : LName) (m : Text) (d : Db)
      → view (rpush k m d) ≡ put_list k (rpush_to m (get_list k (view d))) (view d)
  pub lrem_law :
      (k : LName) (m : Text) (d : Db)
      → view (lrem k m d) ≡ put_list k (remove_one m (get_list k (view d))) (view d)
  pub zadd_law :
      (k : ZName) (s : ℤ) (m : Text) (d : Db)
      → view (zadd k s m d) ≡ put_zset k (zinsert s m (get_zset k (view d))) (view d)
  pub zrem_reply :
      (k : ZName) (m : Text) (d : Db) → (zrem k m d).0 ≡ is_some (zscore m (get_zset k (view d)))
  pub zrem_law :
      (k : ZName) (m : Text) (d : Db)
      → view (zrem k m d).1 ≡ put_zset k (zdelete m (get_zset k (view d))) (view d)
  pub zrange_law :
      (k : ZName) (a b : ℤ) (d : Db) → zrange k a b d ≡ rank_range a b (get_zset k (view d))
  pub zrange_by_score_law :
      (k : ZName) (s : ℤ) (d : Db) → zrange_by_score k s d ≡ score_range s (get_zset k (view d))
  pub zcard_law : (k : ZName) (d : Db) → zcard k d ≡ length (get_zset k (view d))
