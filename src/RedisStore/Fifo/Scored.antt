-- ===== src/RedisStore/Fifo/Scored.antt =====
-- The scores of the members of `pending_rank` and the ranks of the tasks.
use go_task_engine.Prelude.{
  ℕ, suc, ◌≡◌, refl, Option, none, some, List, [], ◌∷◌, arith, if◌then◌else◌,
}
use go_task_engine.Prelude.Int.{ℤ}
use go_task_engine.Prelude.Text.{Text, text_eq_iff}
use go_task_engine.Redis.Keyspace.{View, ZName, Entry, zscore, zinsert, zdelete}
use go_task_engine.Redis.SortedSets.{zscore-zdelete, zscore-zinsert}
use go_task_engine.Redis.Reference.{reference}
use go_task_engine.RedisStore.Scripts.Members.{rank_text, candidate, candidate-rank_text}
use go_task_engine.RedisStore.Scripts.Replies.{is_text, is_text_iff}
use go_task_engine.RedisStore.Scripts.Intake.{
  enqueue_script, schedule_script, claim_members, claim_script, move_ready_body, move_ready_script,
}
use go_task_engine.RedisStore.Scripts.Finish.{
  ack_script, retry_script, archive_script, requeue_script, extend_body, extend_lease_script,
}
use go_task_engine.RedisStore.Scripts.DeadLetters.{
  replay_archived_script, delete_archived_script, cleanup_body, cleanup_archived_script,
}
use go_task_engine.RedisStore.Scripts.Loops.{
  move_ready_loop-keeps, extend_loop-keeps, cleanup_loop-keeps,
}
use go_task_engine.RedisStore.Invariant.Records.{Inv}
use go_task_engine.RedisStore.Invariant.Intake.{IsSource, move_ready_body-Inv}
use go_task_engine.RedisStore.Calls.{
  Call, enqueue, schedule, claim, move_scheduled, move_retry, ack, retry, archive, requeue,
  extend_lease, replay, delete, cleanup, step,
}

-- The score of the member of a task.
abbrev pub score_of : Option Text → List Entry → Option ℤ
score_of none l = none
score_of (some m) l = zscore m l

score_of-zinsert :
    (o : Option Text) (s : ℤ) (m : Text) (l : List Entry)
    → score_of o (zinsert s m l) ≡ (if is_text m o then some s else score_of o l)
score_of-zinsert none s m l = refl
score_of-zinsert (some t) s m l =
    ground (arith, zscore-zinsert t s m l, text_eq_iff m t, text_eq_iff t m)

score_of-zdelete :
    (o : Option Text) (m : Text) (l : List Entry)
    → score_of o (zdelete m l) ≡ (if is_text m o then none else score_of o l)
score_of-zdelete none m l = refl
score_of-zdelete (some t) m l =
    ground (arith, zscore-zdelete t m l, text_eq_iff m t, text_eq_iff t m)

module _ {B : Type 0} where
  -- A task whose member is in `pending_rank` has its rank as the score.
  abbrev pub Scored : View B → Type 0
  Scored v =
      (id : Text) (s : ℤ)
      → score_of (v.hash id).rank_member v.pending_rank ≡ some s
      → (v.hash id).rank ≡ some s

  enqueue-Scored :
      (id : Text) (b : B) (p s : ℤ) (v : View B)
      → Inv v
      → Scored v
      → Scored (enqueue_script (reference B) id b p s v).1
  unfolding enqueue_script
  enqueue-Scored id b p s v h k j t e = ground (
    arith,
    k j t,
    h.located id,
    h.located j,
    text_eq_iff id j,
    candidate-rank_text (suc v.sequence) id,
    is_text_iff (rank_text (suc v.sequence) id) (v.hash j).rank_member,
    zscore-zinsert (rank_text (suc v.sequence) id) s (rank_text (suc v.sequence) id) v.pending_rank,
    text_eq_iff (rank_text (suc v.sequence) id) (rank_text (suc v.sequence) id),
    score_of-zinsert (v.hash j).rank_member s (rank_text (suc v.sequence) id) v.pending_rank,
  )

  schedule-Scored :
      (id : Text) (b : B) (p s t : ℤ) (v : View B)
      → Inv v
      → Scored v
      → Scored (schedule_script (reference B) id b p s t v).1
  unfolding schedule_script
  schedule-Scored id b p s at v h k j t e = ground (
    arith,
    k j t,
    h.located id,
    h.known (rank_text (suc v.sequence) id),
    text_eq_iff id j,
    candidate-rank_text (suc v.sequence) id,
  )

  claim-Scored :
      (l : List Text) (n t : ℤ) (a : Text) (v : View B)
      → Inv v
      → Scored v
      → Scored (claim_members (reference B) l n t a v).1
  unfolding claim_members
  claim-Scored [] n t a v h k j s e = k j s e
  claim-Scored (m ∷ l) n t a v h k j s e = ground (
    arith,
    k j s,
    h.known m,
    text_eq_iff (candidate m) j,
    text_eq_iff m j,
    is_text_iff m (v.hash (candidate m)).rank_member,
    score_of-zdelete (v.hash j).rank_member m v.pending_rank,
    score_of-zdelete (v.hash (candidate m)).rank_member m v.pending_rank,
  )

  move_ready_with :
      (z : ZName) (id : Text) (v : View B) (o : Option ℤ) (p : Option Text)
      → IsSource z
      → Inv v
      → Scored v
      → (v.hash id).rank ≡ o
      → (v.hash id).rank_member ≡ p
      → Scored (move_ready_body (reference B) z id v).1
  unfolding move_ready_body
  move_ready_with ZName.scheduled id v (some s) (some m) w h k e f j t g = ground (
    arith,
    k j t,
    h.located id,
    h.located j,
    text_eq_iff id j,
    is_text_iff m (v.hash j).rank_member,
    score_of-zinsert (v.hash j).rank_member s m v.pending_rank,
  )
  move_ready_with ZName.retry id v (some s) (some m) w h k e f j t g = ground (
    arith,
    k j t,
    h.located id,
    h.located j,
    text_eq_iff id j,
    is_text_iff m (v.hash j).rank_member,
    score_of-zinsert (v.hash j).rank_member s m v.pending_rank,
  )
  move_ready_with ZName.scheduled id v o p w h k e f j t g =
      ground (arith, k j t, h.located id, h.located j, text_eq_iff id j)
  move_ready_with ZName.retry id v o p w h k e f j t g =
      ground (arith, k j t, h.located id, h.located j, text_eq_iff id j)
  move_ready_with _ id v o p w h k e f j t g = absurd w

  move_ready-Scored :
      (z : ZName) (now : ℤ) (max : ℕ) (v : View B)
      → IsSource z
      → Inv v
      → Scored v
      → Scored (move_ready_script (reference B) z now max v).1
  unfolding move_ready_script
  move_ready-Scored z now max v w h k =
      (move_ready_loop-keeps (reference B) (λ u. Inv u × Scored u) z max
        (λ id u p. (
          move_ready_body-Inv z id u w p.0,
          move_ready_with z id u (u.hash id).rank (u.hash id).rank_member w p.0 p.1 refl refl,
        ))
        _ 0 v (h, k)).1

  ack-Scored :
      (id : Text) (b : B) (at : ℤ) (a : Text) (v : View B)
      → Scored v
      → Scored (ack_script (reference B) id b at a v).1
  unfolding ack_script
  ack-Scored id b at a v k j t e = ground (arith, k j t, text_eq_iff id j)

  retry-Scored :
      (id : Text) (b : B) (at : ℤ) (m a : Text) (v : View B)
      → Scored v
      → Scored (retry_script (reference B) id b at m a v).1
  unfolding retry_script
  retry-Scored id b at m a v k j t e = ground (arith, k j t, text_eq_iff id j)

  archive-Scored :
      (id : Text) (b : B) (m : Text) (at : ℤ) (a : Text) (v : View B)
      → Scored v
      → Scored (archive_script (reference B) id b m at a v).1
  unfolding archive_script
  archive-Scored id b m at a v k j t e = ground (arith, k j t, text_eq_iff id j)

  requeue_with :
      (id a : Text) (v : View B) (o : Option ℤ) (p : Option Text)
      → Inv v
      → Scored v
      → (v.hash id).rank ≡ o
      → (v.hash id).rank_member ≡ p
      → Scored (requeue_script (reference B) id a v).1
  unfolding requeue_script
  requeue_with id a v (some s) (some m) h k e f j t g = ground (
    arith,
    k j t,
    h.located id,
    h.located j,
    text_eq_iff id j,
    is_text_iff m (v.hash j).rank_member,
    score_of-zinsert (v.hash j).rank_member s m v.pending_rank,
  )
  requeue_with id a v o p h k e f j t g =
      ground (arith, k j t, h.located id, h.located j, text_eq_iff id j)

  extend-Scored :
      (t : ℤ) (id a : Text) (v : View B) → Scored v → Scored (extend_body (reference B) t id a v).1
  unfolding extend_body
  extend-Scored t id a v k j s e = ground (arith, k j s)

  replay_with :
      (id : Text) (b : B) (v : View B) (o : Option ℤ) (p : Option Text)
      → Inv v
      → Scored v
      → (v.hash id).rank ≡ o
      → (v.hash id).rank_member ≡ p
      → Scored (replay_archived_script (reference B) id b v).1
  unfolding replay_archived_script
  replay_with id b v (some s) (some m) h k e f j t g = ground (
    arith,
    k j t,
    h.located id,
    h.located j,
    text_eq_iff id j,
    is_text_iff m (v.hash j).rank_member,
    score_of-zinsert (v.hash j).rank_member s m v.pending_rank,
  )
  replay_with id b v o p h k e f j t g =
      ground (arith, k j t, h.located id, h.located j, text_eq_iff id j)

  delete-Scored :
      (id : Text) (v : View B) → Scored v → Scored (delete_archived_script (reference B) id v).1
  unfolding delete_archived_script
  delete-Scored id v k j s e = ground (arith, k j s, text_eq_iff id j)

  cleanup-Scored : (id : Text) (v : View B) → Scored v → Scored (cleanup_body (reference B) id v).1
  unfolding cleanup_body
  cleanup-Scored id v k j s e = ground (arith, k j s, text_eq_iff id j)

  pub step-Scored : (c : Call B) (v : View B) → Inv v → Scored v → Scored (step (reference B) c v)
  unfolding step claim_script extend_lease_script cleanup_archived_script
  step-Scored (enqueue id b p s) v h k = enqueue-Scored id b p s v h k
  step-Scored (schedule id b p s t) v h k = schedule-Scored id b p s t v h k
  step-Scored (claim n t a) v h k = claim-Scored _ n t a v h k
  step-Scored (move_scheduled now max) v h k = move_ready-Scored ZName.scheduled now max v tt h k
  step-Scored (move_retry now max) v h k = move_ready-Scored ZName.retry now max v tt h k
  step-Scored (ack id b at a) v h k = ack-Scored id b at a v k
  step-Scored (retry id b at m a) v h k = retry-Scored id b at m a v k
  step-Scored (archive id b m at a) v h k = archive-Scored id b m at a v k
  step-Scored (requeue id a) v h k =
      requeue_with id a v (v.hash id).rank (v.hash id).rank_member h k refl refl
  step-Scored (extend_lease t tasks) v h k =
      extend_loop-keeps (reference B) Scored t (extend-Scored t) tasks 0 v k
  step-Scored (replay id b) v h k =
      replay_with id b v (v.hash id).rank (v.hash id).rank_member h k refl refl
  step-Scored (delete id) v h k = delete-Scored id v k
  step-Scored (cleanup before max) v h k =
      cleanup_loop-keeps (reference B) Scored max cleanup-Scored _ 0 v k
