-- ===== src/Redis/Reference.antt =====
-- A database that is its own view: it shows that the laws of the commands can be met.
use go_task_engine.Prelude.{suc, refl, is_some}
use go_task_engine.Redis.{Redis}
use go_task_engine.Redis.Keyspace.{
  View, length, get_zset, put_zset, get_list, put_list, set_fields, clear_attempt, empty_hash,
  put_hash, has_field, zscore, zinsert, zdelete, remove_one, rank_range, score_range, lpush_to,
  rpush_to,
}

abbrev pub reference : (B : Type 0) → Redis B
reference B = record {
  Db = View B;
  view = λ d. d;
  exists = λ id d. has_field (d.hash id);
  hget = λ id d. d.hash id;
  hset = λ id fs d. put_hash id (set_fields fs (d.hash id)) d;
  hdel_attempt_id = λ id d. put_hash id (clear_attempt (d.hash id)) d;
  del = λ id d. put_hash id empty_hash d;
  incr = λ d. (suc d.sequence, record d { sequence = suc d.sequence });
  lpush = λ k m d. put_list k (lpush_to m (get_list k d)) d;
  rpush = λ k m d. put_list k (rpush_to m (get_list k d)) d;
  lrem = λ k m d. put_list k (remove_one m (get_list k d)) d;
  zadd = λ k s m d. put_zset k (zinsert s m (get_zset k d)) d;
  zrem = λ k m d. (is_some (zscore m (get_zset k d)), put_zset k (zdelete m (get_zset k d)) d);
  zrange = λ k a b d. rank_range a b (get_zset k d);
  zrange_by_score = λ k s d. score_range s (get_zset k d);
  zcard = λ k d. length (get_zset k d);
  exists_law = λ id d. refl;
  hget_law = λ id d. refl;
  hset_law = λ id fs d. refl;
  hdel_law = λ id d. refl;
  del_law = λ id d. refl;
  incr_reply = λ d. refl;
  incr_law = λ d. refl;
  lpush_law = λ k m d. refl;
  rpush_law = λ k m d. refl;
  lrem_law = λ k m d. refl;
  zadd_law = λ k s m d. refl;
  zrem_reply = λ k m d. refl;
  zrem_law = λ k m d. refl;
  zrange_law = λ k a b d. refl;
  zrange_by_score_law = λ k s d. refl;
  zcard_law = λ k d. refl;
}
