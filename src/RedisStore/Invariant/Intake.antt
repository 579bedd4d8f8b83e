-- ===== src/RedisStore/Invariant/Intake.antt =====
-- Enqueueing, scheduling, claiming and moving ready tasks keep the records in order.
use go_task_engine.Prelude.{ℕ, suc, ◌≡◌, refl, Option, some, List, [], ◌∷◌, arith}
use go_task_engine.Prelude.Int.{ℤ}
use go_task_engine.Prelude.Text.{Text, text_eq_iff}
use go_task_engine.Redis.Keyspace.{View, ZName, scheduled, retry}
use go_task_engine.Redis.SortedSets.{zscore-zdelete, zscore-zinsert}
use go_task_engine.Redis.Lists.{count-remove_one, count-append, count-cons}
use go_task_engine.Redis.Reference.{reference}
use go_task_engine.RedisStore.Scripts.Replies.{is_text_iff}
use go_task_engine.RedisStore.Scripts.Members.{rank_text, candidate, candidate-rank_text}
use go_task_engine.RedisStore.Scripts.Intake.{
  enqueue_script, schedule_script, claim_members, claim_script, move_ready_body, move_ready_script,
}
use go_task_engine.RedisStore.Scripts.Loops.{move_ready_loop-keeps}
use go_task_engine.RedisStore.Invariant.Records.{Inv, listed-zinsert, listed-zdelete}

-- The sorted sets from which MoveReady takes tasks.
abbrev pub IsSource : ZName → Type 0
IsSource scheduled = Unit
IsSource retry = Unit
IsSource _ = ⊥

module _ {B : Type 0} (v : View B) (h : Inv v) where
  pub enqueue-Inv : (id : Text) (b : B) (p s : ℤ) → Inv (enqueue_script (reference B) id b p s v).1
  unfolding enqueue_script
  enqueue-Inv id b p s = record {
    located = λ j. ground (
      arith,
      h.located id,
      h.located j,
      text_eq_iff id j,
      candidate-rank_text (suc v.sequence) id,
      is_text_iff (rank_text (suc v.sequence) id) (v.hash j).rank_member,
      listed-zinsert (v.hash j).rank_member s (rank_text (suc v.sequence) id) v.pending_rank,
      zscore-zinsert (rank_text (suc v.sequence) id) s (rank_text (suc v.sequence) id)
          v.pending_rank,
      text_eq_iff (rank_text (suc v.sequence) id) (rank_text (suc v.sequence) id),
      count-cons j id v.pending,
    );
    known = λ t x. ground (
      arith,
      h.located id,
      h.known t,
      text_eq_iff id (candidate t),
      candidate-rank_text (suc v.sequence) id,
      text_eq_iff (rank_text (suc v.sequence) id) t,
      zscore-zinsert t s (rank_text (suc v.sequence) id) v.pending_rank,
    );
  }

  pub schedule-Inv :
      (id : Text) (b : B) (p s t : ℤ) → Inv (schedule_script (reference B) id b p s t v).1
  unfolding schedule_script
  schedule-Inv id b p s t = record {
    located = λ j. ground (
      arith,
      h.located id,
      h.located j,
      text_eq_iff id j,
      h.known (rank_text (suc v.sequence) id),
      candidate-rank_text (suc v.sequence) id,
      zscore-zinsert j t id v.scheduled,
    );
    known = λ m x. ground (arith, h.located id, h.known m, text_eq_iff id (candidate m));
  }

  claim_members-Inv :
      (l : List Text) (n t : ℤ) (a : Text) → Inv (claim_members (reference B) l n t a v).1
  unfolding claim_members
  claim_members-Inv [] n t a = h
  claim_members-Inv (m ∷ l) n t a = record {
    located = λ j. ground (
      arith,
      h.located (candidate m),
      h.located j,
      h.known m,
      text_eq_iff (candidate m) j,
      is_text_iff m (v.hash (candidate m)).rank_member,
      is_text_iff m (v.hash j).rank_member,
      listed-zdelete (v.hash j).rank_member m v.pending_rank,
      zscore-zinsert j t (candidate m) v.lease,
      count-remove_one j (candidate m) v.pending,
      count-append j (candidate m) v.active,
    );
    known = λ u x. ground (
      arith,
      h.located (candidate m),
      h.known m,
      h.known u,
      text_eq_iff (candidate m) (candidate u),
      is_text_iff m (v.hash (candidate m)).rank_member,
      zscore-zdelete u m v.pending_rank,
    );
  }

  pub claim-Inv : (n t : ℤ) (a : Text) → Inv (claim_script (reference B) n t a v).1
  unfolding claim_script
  claim-Inv n t a = claim_members-Inv _ n t a

module _ {B : Type 0} where
  move_ready_with :
      (z : ZName) (id : Text) (v : View B) (o : Option ℤ) (p : Option Text)
      → IsSource z
      → Inv v
      → (v.hash id).rank ≡ o
      → (v.hash id).rank_member ≡ p
      → Inv (move_ready_body (reference B) z id v).1
  unfolding move_ready_body
  move_ready_with scheduled id v (some s) (some m) w h e f = record {
    located = λ j. ground (
      arith,
      h.located id,
      h.located j,
      text_eq_iff id j,
      is_text_iff m (v.hash j).rank_member,
      listed-zinsert (v.hash j).rank_member s m v.pending_rank,
      zscore-zdelete j id v.scheduled,
      count-cons j id v.pending,
    );
    known = λ t x. ground (
      arith,
      h.located id,
      h.known t,
      text_eq_iff id (candidate t),
      text_eq_iff m t,
      zscore-zinsert t s m v.pending_rank,
    );
  }
  move_ready_with retry id v (some s) (some m) w h e f = record {
    located = λ j. ground (
      arith,
      h.located id,
      h.located j,
      text_eq_iff id j,
      is_text_iff m (v.hash j).rank_member,
      listed-zinsert (v.hash j).rank_member s m v.pending_rank,
      zscore-zdelete j id v.retry,
      count-cons j id v.pending,
    );
    known = λ t x. ground (
      arith,
      h.located id,
      h.known t,
      text_eq_iff id (candidate t),
      text_eq_iff m t,
      zscore-zinsert t s m v.pending_rank,
    );
  }
  move_ready_with scheduled id v o p w h e f = record {
    located = λ j.
        ground
          (arith, h.located id, h.located j, text_eq_iff id j, zscore-zdelete j id v.scheduled);
    known = λ t x. ground (arith, h.located id, h.known t);
  }
  move_ready_with retry id v o p w h e f = record {
    located = λ j.
        ground (arith, h.located id, h.located j, text_eq_iff id j, zscore-zdelete j id v.retry);
    known = λ t x. ground (arith, h.located id, h.known t);
  }
  move_ready_with _ id v o p w h e f = absurd w

  pub move_ready_body-Inv :
      (z : ZName) (id : Text) (v : View B)
      → IsSource z
      → Inv v
      → Inv (move_ready_body (reference B) z id v).1
  move_ready_body-Inv z id v w h =
      move_ready_with z id v (v.hash id).rank (v.hash id).rank_member w h refl refl

  pub move_ready-Inv :
      (z : ZName) (now : ℤ) (max : ℕ) (v : View B)
      → IsSource z
      → Inv v
      → Inv (move_ready_script (reference B) z now max v).1
  unfolding move_ready_script
  move_ready-Inv z now max v w h =
      move_ready_loop-keeps (reference B) Inv z max (λ id u. move_ready_body-Inv z id u w) _ 0 v h
