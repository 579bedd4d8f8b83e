-- ===== src/RedisStore/Store/Returned.antt =====
-- What Requeue leaves of a task and of everything else.
use go_task_engine.Prelude.{
  ◌≡◌, ◌≢◌, ◌∙◌, refl, sym, subst, ap, Bool, true, false, Option, none, some, Bool-cases, inl, inr,
  [], arith,
}
use go_task_engine.Prelude.Int.{ℤ}
use go_task_engine.Prelude.Text.{Text, text_eq, text_eq_refl, text_eq→eq, text_eq_iff}
use go_task_engine.Errors.{Error}
use go_task_engine.Model.{TaskMessage, pending}
use go_task_engine.Redis.{Redis}
use go_task_engine.Redis.Keyspace.{View, zscore}
use go_task_engine.Redis.SortedSets.{zscore-zdelete, zscore-zinsert}
use go_task_engine.Redis.Reference.{reference}
use go_task_engine.RedisStore.Invariant.Records.{Inv}
use go_task_engine.RedisStore.Scripts.Finish.{requeue_script}
use go_task_engine.RedisStore.Transfer.Finish.{requeue-Agrees}
use go_task_engine.RedisStore.Fencing.Finish.{holds}
use go_task_engine.RedisStore.Store.Base.{Codec, sound, send, on_queue, settle}
use go_task_engine.RedisStore.Store.Finish.{requeue}
use go_task_engine.RedisStore.Store.Endings.{Refused}

module _ {B : Type 0} where
  -- The task is pending with its message and its rank and without attempt and lease; every other
  -- task is as it was.
  pub record GivenBack (id : Text) (v w : View B) : Type 0 where
    pub state : (w.hash id).state ≡ some pending
    pub attempt : (w.hash id).attempt_id ≡ none
    pub message : (w.hash id).msg ≡ (v.hash id).msg
    pub lease : zscore id w.lease ≡ none
    pub rank :
        (member : Text)
        → (v.hash id).rank_member ≡ some member
        → zscore member w.pending_rank ≡ (v.hash id).rank
    pub others : (j : Text) → j ≢ id → w.hash j ≡ v.hash j
    pub leases : (j : Text) → j ≢ id → zscore j w.lease ≡ zscore j v.lease

  requeue_with :
      (v : View B) (id a : Text) (o : Option ℤ) (p : Option Text)
      → Inv v
      → holds a (v.hash id) ≡ true
      → (v.hash id).rank ≡ o
      → (v.hash id).rank_member ≡ p
      → ((requeue_script (reference B) id a v).0 ≡ some 1)
        × GivenBack id v (requeue_script (reference B) id a v).1
  unfolding requeue_script
  requeue_with v id a (some s) (some m) h own e f = (
    ground (arith, own, e),
    record {
      state = ground (arith, own, text_eq_refl id);
      attempt = ground (arith, own, text_eq_refl id);
      message = ground (arith, own, text_eq_refl id);
      lease = ground (arith, own, zscore-zdelete id id v.lease, text_eq_refl id);
      rank =
          λ x g. ground (arith, own, e, f, g, zscore-zinsert x s m v.pending_rank, text_eq_refl x);
      others = λ j n. ground (arith, own, n, text_eq_iff id j);
      leases = λ j n. ground (arith, own, n, text_eq_iff id j, zscore-zdelete j id v.lease);
    },
  )
  requeue_with v id a o p h own e f = absurd (ground (arith, h.located id, own, e, f))

module _ {B : Type 0} (r : Redis B) (json : Codec B) where
  abbrev Space : Type 0
  Space = Text → r.Db

  -- An attempt that owns the task gives it back, and no other queue changes; any other attempt is
  -- refused.
  abbrev pub Requeued : Bool → TaskMessage → Space → (Option Error × TaskMessage) × Space → Type 0
  Requeued true m sp (x, sp') =
      (x ≡ (none, record m { state = pending; attempt_id = [] }))
      × GivenBack m.id (r.view (sp m.queue)) (r.view (sp' m.queue))
      × ((q : Text) → q ≢ m.queue → sp' q ≡ sp q)
  Requeued false m sp p = Refused r json m sp p

  requeue-GivenBack :
      (d : r.Db) (id a : Text)
      → Inv (r.view d)
      → holds a ((r.view d).hash id) ≡ true
      → ((requeue_script r id a d).0 ≡ some 1)
        × GivenBack id (r.view d) (r.view (requeue_script r id a d).1)
  requeue-GivenBack d id a h own =
      let (same, left) = requeue-Agrees r id a d in
      let (one, back) = requeue_with (r.view d) id a _ _ h own refl refl in
      (same ∙ one, subst (GivenBack id (r.view d)) (sym left) back)

  requeue-refused :
      (d : r.Db) (id a : Text)
      → holds a ((r.view d).hash id) ≡ false
      → requeue_script r id a d ≡ (some 0, d)
  unfolding requeue_script
  requeue-refused d id a h = ground (arith, r.hget_law id d)

  -- On a connection that works and for a queue in order, Requeue under the attempt that owns the task
  -- gives no error and makes the task pending again, with its message and its rank and without attempt
  -- and lease, and changes no other task of the queue and no other queue; under any other attempt it
  -- answers ErrInvalidTransition and changes nothing.
  pub requeue-Requeued :
      (m : TaskMessage) (sp : Space)
      → Inv (r.view (sp m.queue))
      → Requeued
          (holds m.attempt_id ((r.view (sp m.queue)).hash m.id))
          m
          sp
          (requeue r json sound m sp)
  unfolding requeue on_queue send settle
  requeue-Requeued m sp h =
      elim (Bool-cases (holds m.attempt_id ((r.view (sp m.queue)).hash m.id))) [
        | inl own ↦
            let (one, back) = requeue-GivenBack (sp m.queue) m.id m.attempt_id h own in
            rw (own, one, text_eq_refl m.queue)
              (refl, back, λ q other. ground (arith, other, text_eq_iff m.queue q))
        | inr lost ↦
            rw (lost, requeue-refused (sp m.queue) m.id m.attempt_id lost)
              (
                refl,
                λ q. elim (Bool-cases (text_eq m.queue q)) [
                  | inl here ↦ rw here (ap sp (text_eq→eq m.queue q here))
                  | inr other ↦ rw other refl
                ],
              )
      ]
