-- ===== src/RedisStore/Invariant/Finish.antt =====
-- The scripts of the holder of an attempt keep the records in order.
use go_task_engine.Prelude.{◌≡◌, refl, Option, some, List, arith}
use go_task_engine.Prelude.Int.{ℤ}
use go_task_engine.Prelude.Text.{Text, text_eq_iff}
use go_task_engine.Redis.Keyspace.{View}
use go_task_engine.Redis.SortedSets.{zscore-zdelete, zscore-zinsert}
use go_task_engine.Redis.Lists.{count-remove_one, count-cons}
use go_task_engine.Redis.Reference.{reference}
use go_task_engine.RedisStore.Scripts.Replies.{is_text_iff}
use go_task_engine.RedisStore.Scripts.Members.{candidate}
use go_task_engine.RedisStore.Scripts.Finish.{
  ack_script, retry_script, archive_script, requeue_script, extend_body, extend_lease_script,
}
use go_task_engine.RedisStore.Scripts.Loops.{extend_loop-keeps}
use go_task_engine.RedisStore.Invariant.Records.{Inv, listed-zinsert}

module _ {B : Type 0} (v : View B) (h : Inv v) (id : Text) where
  pub ack-Inv : (b : B) (at : ℤ) (a : Text) → Inv (ack_script (reference B) id b at a v).1
  unfolding ack_script
  ack-Inv b at a = record {
    located = λ j. ground (
      arith,
      h.located id,
      h.located j,
      text_eq_iff id j,
      zscore-zdelete j id v.lease,
      count-remove_one j id v.active,
    );
    known = λ m e. ground (arith, h.known m, text_eq_iff id (candidate m));
  }

  pub retry-Inv : (b : B) (at : ℤ) (m a : Text) → Inv (retry_script (reference B) id b at m a v).1
  unfolding retry_script
  retry-Inv b at m a = record {
    located = λ j. ground (
      arith,
      h.located id,
      h.located j,
      text_eq_iff id j,
      zscore-zdelete j id v.lease,
      zscore-zinsert j at id v.retry,
      count-remove_one j id v.active,
    );
    known = λ m e. ground (arith, h.known m, text_eq_iff id (candidate m));
  }

  pub archive-Inv :
      (b : B) (m : Text) (at : ℤ) (a : Text) → Inv (archive_script (reference B) id b m at a v).1
  unfolding archive_script
  archive-Inv b m at a = record {
    located = λ j. ground (
      arith,
      h.located id,
      h.located j,
      text_eq_iff id j,
      zscore-zdelete j id v.lease,
      zscore-zinsert j at id v.archived,
      count-remove_one j id v.active,
    );
    known = λ m e. ground (arith, h.known m, text_eq_iff id (candidate m));
  }

  requeue_with :
      (a : Text) (o : Option ℤ) (p : Option Text)
      → (v.hash id).rank ≡ o
      → (v.hash id).rank_member ≡ p
      → Inv (requeue_script (reference B) id a v).1
  unfolding requeue_script
  requeue_with a (some s) (some m) e f = record {
    located = λ j. ground (
      arith,
      h.located id,
      h.located j,
      text_eq_iff id j,
      is_text_iff m (v.hash j).rank_member,
      listed-zinsert (v.hash j).rank_member s m v.pending_rank,
      zscore-zdelete j id v.lease,
      count-remove_one j id v.active,
      count-cons j id v.pending,
    );
    known = λ t x. ground (
      arith,
      h.located id,
      h.known t,
      text_eq_iff id (candidate t),
      text_eq_iff m t,
      zscore-zinsert t s m v.pending_rank,
    );
  }
  requeue_with a o p e f = record {
    located = λ j. ground (arith, h.located id, h.located j);
    known = λ t x. ground (arith, h.located id, h.known t);
  }

  pub requeue-Inv : (a : Text) → Inv (requeue_script (reference B) id a v).1
  requeue-Inv a = requeue_with a (v.hash id).rank (v.hash id).rank_member refl refl

module _ {B : Type 0} where
  pub extend_body-Inv :
      (t : ℤ) (id a : Text) (v : View B) → Inv v → Inv (extend_body (reference B) t id a v).1
  unfolding extend_body
  extend_body-Inv t id a v h = record {
    located = λ j. ground (
      arith,
      h.located id,
      h.located j,
      text_eq_iff id j,
      zscore-zdelete j id v.lease,
      zscore-zinsert j t id v.lease,
    );
    known = λ m e. ground (arith, h.known m);
  }

  pub extend_lease-Inv :
      (t : ℤ) (tasks : List (Text × Text)) (v : View B)
      → Inv v
      → Inv (extend_lease_script (reference B) t tasks v).1
  unfolding extend_lease_script
  extend_lease-Inv t tasks v h =
      extend_loop-keeps (reference B) Inv t (extend_body-Inv t) tasks 0 v h
