-- ===== src/RedisStore/Invariant/DeadLetters.antt =====
-- Replaying, deleting and cleaning up dead letters keep the records in order.
use go_task_engine.Prelude.{ℕ, ◌≡◌, refl, Option, some, arith}
use go_task_engine.Prelude.Int.{ℤ}
use go_task_engine.Prelude.Text.{Text, text_eq_iff}
use go_task_engine.Redis.Keyspace.{View}
use go_task_engine.Redis.SortedSets.{zscore-zdelete, zscore-zinsert}
use go_task_engine.Redis.Lists.{count-cons}
use go_task_engine.Redis.Reference.{reference}
use go_task_engine.RedisStore.Scripts.Replies.{is_text_iff}
use go_task_engine.RedisStore.Scripts.Members.{candidate}
use go_task_engine.RedisStore.Scripts.DeadLetters.{
  replay_archived_script, delete_archived_script, cleanup_body, cleanup_archived_script,
}
use go_task_engine.RedisStore.Scripts.Loops.{cleanup_loop-keeps}
use go_task_engine.RedisStore.Invariant.Records.{Inv, listed-zinsert}

module _ {B : Type 0} (v : View B) (h : Inv v) (id : Text) where
  replay_with :
      (b : B) (o : Option ℤ) (p : Option Text)
      → (v.hash id).rank ≡ o
      → (v.hash id).rank_member ≡ p
      → Inv (replay_archived_script (reference B) id b v).1
  unfolding replay_archived_script
  replay_with b (some s) (some m) e f = record {
    located = λ j. ground (
      arith,
      h.located id,
      h.located j,
      text_eq_iff id j,
      is_text_iff m (v.hash j).rank_member,
      listed-zinsert (v.hash j).rank_member s m v.pending_rank,
      zscore-zdelete j id v.archived,
      count-cons j id v.pending,
    );
    known = λ t x. ground (
      arith,
      h.located id,
      h.known t,
      text_eq_iff id (candidate t),
      text_eq_iff m t,
      zscore-zinsert t s m v.pending_rank,
    );
  }
  replay_with b o p e f = record {
    located = λ j. ground (arith, h.located id, h.located j);
    known = λ t x. ground (arith, h.located id, h.known t);
  }

  pub replay_archived-Inv : (b : B) → Inv (replay_archived_script (reference B) id b v).1
  replay_archived-Inv b = replay_with b (v.hash id).rank (v.hash id).rank_member refl refl

  pub delete_archived-Inv : Inv (delete_archived_script (reference B) id v).1
  unfolding delete_archived_script
  delete_archived-Inv = record {
    located = λ j.
        ground (arith, h.located id, h.located j, text_eq_iff id j, zscore-zdelete j id v.archived);
    known = λ t x. ground (
      arith,
      h.located id,
      h.known t,
      text_eq_iff id (candidate t),
      text_eq_iff (candidate t) id,
    );
  }

  pub cleanup_body-Inv : Inv (cleanup_body (reference B) id v).1
  unfolding cleanup_body
  cleanup_body-Inv = record {
    located = λ j.
        ground (arith, h.located id, h.located j, text_eq_iff id j, zscore-zdelete j id v.archived);
    known = λ t x. ground (arith, h.located id, h.known t, text_eq_iff id (candidate t));
  }

module _ {B : Type 0} where
  pub cleanup_archived-Inv :
      (before : ℤ) (max : ℕ) (v : View B)
      → Inv v
      → Inv (cleanup_archived_script (reference B) before max v).1
  unfolding cleanup_archived_script
  cleanup_archived-Inv before max v h =
      cleanup_loop-keeps (reference B) Inv max (λ id u k. cleanup_body-Inv u k id) _ 0 v h
