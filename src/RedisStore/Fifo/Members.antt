-- ===== src/RedisStore/Fifo/Members.antt =====
-- What a call does to the members of the tasks and to the sequence number.
use go_task_engine.Prelude.{
  ℕ, suc, ◌≡◌, refl, Option, none, some, List, [], ◌∷◌, arith, ◌⊎◌, inl, inr, Bool-cases,
  if◌then◌else◌,
}
use go_task_engine.Prelude.Int.{ℤ}
use go_task_engine.Prelude.Text.{Text, text_eq, text_eq_iff}
use go_task_engine.Redis.Keyspace.{View, ZName, has_field}
use go_task_engine.Redis.Reference.{reference}
use go_task_engine.RedisStore.Scripts.Members.{rank_text, candidate}
use go_task_engine.RedisStore.Scripts.Intake.{
  enqueue_script, schedule_script, claim_members, claim_script, move_ready_body, move_ready_script,
}
use go_task_engine.RedisStore.Scripts.Finish.{
  ack_script, retry_script, archive_script, requeue_script, extend_body, extend_lease_script,
}
use go_task_engine.RedisStore.Scripts.DeadLetters.{
  replay_archived_script, delete_archived_script, cleanup_body, cleanup_archived_script,
}
use go_task_engine.RedisStore.Scripts.Loops.{
  move_ready_loop-keeps, extend_loop-keeps, cleanup_loop-keeps,
}
use go_task_engine.RedisStore.Invariant.Intake.{IsSource}
use go_task_engine.RedisStore.Calls.{
  Call, enqueue, schedule, claim, move_scheduled, move_retry, ack, retry, archive, requeue,
  extend_lease, replay, delete, cleanup, step,
}

module _ {B : Type 0} where
  -- Every task kept its member and its rank, or has no hash any more.
  pub record Wanes (v w : View B) : Type 0 where
    pub sequence : w.sequence ≡ v.sequence
    pub member :
        (j : Text)
        → ((w.hash j).rank_member ≡ none)
          ⊎ (((w.hash j).rank_member ≡ (v.hash j).rank_member)
              × ((w.hash j).rank ≡ (v.hash j).rank))

  -- One task was given a member with the next sequence number.
  pub record Numbers (v w : View B) : Type 0 where
    pub id : Text
    pub sequence : w.sequence ≡ suc v.sequence
    pub member :
        (j : Text)
        → (w.hash j).rank_member
          ≡ (if text_eq id j then some (rank_text (suc v.sequence) id) else (v.hash j).rank_member)

  Wanes-refl : (v : View B) → Wanes v v
  Wanes-refl v = record { sequence = refl; member = λ j. inr (refl, refl) }

  claim-Wanes :
      (l : List Text) (n t : ℤ) (a : Text) (v : View B)
      → Wanes v (claim_members (reference B) l n t a v).1
  unfolding claim_members
  claim-Wanes [] n t a v = Wanes-refl v
  claim-Wanes (m ∷ l) n t a v = record {
    sequence = ground arith;
    member = λ j. ground (arith, text_eq_iff (candidate m) j, text_eq_iff m j);
  }

  Wanes-trans : (u v w : View B) → Wanes u v → Wanes v w → Wanes u w
  Wanes-trans u v w h k = record {
    sequence = ground arith;
    member = λ j. ground (arith, h.member j, k.member j);
  }

  move_ready_with :
      (z : ZName) (id : Text) (v : View B) (o : Option ℤ)
      → IsSource z
      → (v.hash id).rank ≡ o
      → Wanes v (move_ready_body (reference B) z id v).1
  unfolding move_ready_body
  move_ready_with ZName.scheduled id v (some s) w e = record {
    sequence = ground arith;
    member = λ j. ground (arith, text_eq_iff id j);
  }
  move_ready_with ZName.scheduled id v none w e = record {
    sequence = ground arith;
    member = λ j. ground (arith, text_eq_iff id j);
  }
  move_ready_with ZName.retry id v (some s) w e = record {
    sequence = ground arith;
    member = λ j. ground (arith, text_eq_iff id j);
  }
  move_ready_with ZName.retry id v none w e = record {
    sequence = ground arith;
    member = λ j. ground (arith, text_eq_iff id j);
  }
  move_ready_with _ id v o w e = absurd w

  move_ready-Wanes :
      (z : ZName) (now : ℤ) (max : ℕ) (v : View B)
      → IsSource z
      → Wanes v (move_ready_script (reference B) z now max v).1
  unfolding move_ready_script
  move_ready-Wanes z now max v w =
      move_ready_loop-keeps (reference B) (Wanes v) z max
        (λ id u k. Wanes-trans v u _ k (move_ready_with z id u (u.hash id).rank w refl)) _ 0 v
        (Wanes-refl v)

  ack-Wanes :
      (id : Text) (b : B) (at : ℤ) (a : Text) (v : View B)
      → Wanes v (ack_script (reference B) id b at a v).1
  unfolding ack_script
  ack-Wanes id b at a v = record {
    sequence = ground arith;
    member = λ j. ground (arith, text_eq_iff id j);
  }

  retry-Wanes :
      (id : Text) (b : B) (at : ℤ) (m a : Text) (v : View B)
      → Wanes v (retry_script (reference B) id b at m a v).1
  unfolding retry_script
  retry-Wanes id b at m a v = record {
    sequence = ground arith;
    member = λ j. ground (arith, text_eq_iff id j);
  }

  archive-Wanes :
      (id : Text) (b : B) (m : Text) (at : ℤ) (a : Text) (v : View B)
      → Wanes v (archive_script (reference B) id b m at a v).1
  unfolding archive_script
  archive-Wanes id b m at a v = record {
    sequence = ground arith;
    member = λ j. ground (arith, text_eq_iff id j);
  }

  requeue_with :
      (id a : Text) (v : View B) (o : Option ℤ)
      → (v.hash id).rank ≡ o
      → Wanes v (requeue_script (reference B) id a v).1
  unfolding requeue_script
  requeue_with id a v (some s) e = record {
    sequence = ground arith;
    member = λ j. ground (arith, text_eq_iff id j);
  }
  requeue_with id a v none e = record {
    sequence = ground arith;
    member = λ j. ground (arith, text_eq_iff id j);
  }

  extend-Wanes : (t : ℤ) (id a : Text) (v : View B) → Wanes v (extend_body (reference B) t id a v).1
  unfolding extend_body
  extend-Wanes t id a v = record { sequence = ground arith; member = λ j. ground arith }

  replay_with :
      (id : Text) (b : B) (v : View B) (o : Option ℤ)
      → (v.hash id).rank ≡ o
      → Wanes v (replay_archived_script (reference B) id b v).1
  unfolding replay_archived_script
  replay_with id b v (some s) e = record {
    sequence = ground arith;
    member = λ j. ground (arith, text_eq_iff id j);
  }
  replay_with id b v none e = record {
    sequence = ground arith;
    member = λ j. ground (arith, text_eq_iff id j);
  }

  delete-Wanes : (id : Text) (v : View B) → Wanes v (delete_archived_script (reference B) id v).1
  unfolding delete_archived_script
  delete-Wanes id v = record {
    sequence = ground arith;
    member = λ j. ground (arith, text_eq_iff id j);
  }

  cleanup-Wanes : (id : Text) (v : View B) → Wanes v (cleanup_body (reference B) id v).1
  unfolding cleanup_body
  cleanup-Wanes id v = record {
    sequence = ground arith;
    member = λ j. ground (arith, text_eq_iff id j);
  }

  enqueue_cases :
      (id : Text) (b : B) (p s : ℤ) (v : View B)
      → Wanes v (enqueue_script (reference B) id b p s v).1
        ⊎ Numbers v (enqueue_script (reference B) id b p s v).1
  unfolding enqueue_script
  enqueue_cases id b p s v = elim (Bool-cases (has_field (v.hash id))) [
    | inl taken ↦ inl (record { sequence = ground arith; member = λ j. ground arith })
    | inr free ↦ inr (record {
      id = id;
      sequence = ground arith;
      member = λ j. ground (arith, text_eq_iff id j);
    })
  ]

  schedule_cases :
      (id : Text) (b : B) (p s t : ℤ) (v : View B)
      → Wanes v (schedule_script (reference B) id b p s t v).1
        ⊎ Numbers v (schedule_script (reference B) id b p s t v).1
  unfolding schedule_script
  schedule_cases id b p s t v = elim (Bool-cases (has_field (v.hash id))) [
    | inl taken ↦ inl (record { sequence = ground arith; member = λ j. ground arith })
    | inr free ↦ inr (record {
      id = id;
      sequence = ground arith;
      member = λ j. ground (arith, text_eq_iff id j);
    })
  ]

  -- A call gives at most one task a member, and that with the next sequence number.
  pub step_cases :
      (c : Call B) (v : View B)
      → Wanes v (step (reference B) c v) ⊎ Numbers v (step (reference B) c v)
  unfolding step claim_script extend_lease_script cleanup_archived_script
  step_cases (enqueue id b p s) v = enqueue_cases id b p s v
  step_cases (schedule id b p s t) v = schedule_cases id b p s t v
  step_cases (claim n t a) v = inl (claim-Wanes _ n t a v)
  step_cases (move_scheduled now max) v = inl (move_ready-Wanes ZName.scheduled now max v tt)
  step_cases (move_retry now max) v = inl (move_ready-Wanes ZName.retry now max v tt)
  step_cases (ack id b at a) v = inl (ack-Wanes id b at a v)
  step_cases (retry id b at m a) v = inl (retry-Wanes id b at m a v)
  step_cases (archive id b m at a) v = inl (archive-Wanes id b m at a v)
  step_cases (requeue id a) v = inl (requeue_with id a v (v.hash id).rank refl)
  step_cases (extend_lease t tasks) v = inl (
      extend_loop-keeps (reference B) (Wanes v) t
        (λ id a u k. Wanes-trans v u _ k (extend-Wanes t id a u)) tasks 0 v (Wanes-refl v))
  step_cases (replay id b) v = inl (replay_with id b v (v.hash id).rank refl)
  step_cases (delete id) v = inl (delete-Wanes id v)
  step_cases (cleanup before max) v = inl (
      cleanup_loop-keeps (reference B) (Wanes v) max
        (λ id u k. Wanes-trans v u _ k (cleanup-Wanes id u)) _ 0 v (Wanes-refl v))
