-- ===== src/RedisStore/Calls/Adds.antt =====
-- What each script may write to the message and to the attempt in a hash.
use go_task_engine.Prelude.{ℕ, ◌≡◌, ◌⊎◌, refl, Option, none, some, List, [], ◌∷◌, arith, inl}
use go_task_engine.Prelude.Int.{ℤ}
use go_task_engine.Prelude.Text.{Text, text_eq_iff}
use go_task_engine.Redis.Keyspace.{View, ZName}
use go_task_engine.Redis.Reference.{reference}
use go_task_engine.RedisStore.Scripts.Members.{candidate}
use go_task_engine.RedisStore.Scripts.Intake.{
  enqueue_script, schedule_script, claim_members, move_ready_body, move_ready_script,
}
use go_task_engine.RedisStore.Scripts.Finish.{
  ack_script, retry_script, archive_script, requeue_script, extend_body,
}
use go_task_engine.RedisStore.Scripts.DeadLetters.{
  replay_archived_script, delete_archived_script, cleanup_body,
}
use go_task_engine.RedisStore.Scripts.Loops.{move_ready_loop-keeps}
use go_task_engine.RedisStore.Invariant.Intake.{IsSource}
use go_task_engine.RedisStore.Calls.{Call, enqueue, schedule, claim, ack, retry, archive, replay}

module _ {B : Type 0} where
  -- Every message in the hash of a task, and every attempt, was there or is one of these.
  pub record Adds (writes : Text → B → Type 0) (opens : Text → Type 0) (v w : View B) (j : Text)
      : Type 0 where
    pub message : (b : B) → (w.hash j).msg ≡ some b → ((v.hash j).msg ≡ some b) ⊎ writes j b
    pub attempt :
        (a : Text) → (w.hash j).attempt_id ≡ some a → ((v.hash j).attempt_id ≡ some a) ⊎ opens a

  -- The messages that a call may store, and the attempts that it may open.
  abbrev pub Writes : Call B → Text → B → Type 0
  Writes (enqueue id b p s) j c = (j ≡ id) × (c ≡ b)
  Writes (schedule id b p s t) j c = (j ≡ id) × (c ≡ b)
  Writes (ack id b at a) j c = (j ≡ id) × (c ≡ b)
  Writes (retry id b at m a) j c = (j ≡ id) × (c ≡ b)
  Writes (archive id b m at a) j c = (j ≡ id) × (c ≡ b)
  Writes (replay id b) j c = (j ≡ id) × (c ≡ b)
  Writes _ j c = ⊥

  abbrev pub Opens : Call B → Text → Type 0
  Opens (claim n t a) x = x ≡ a
  Opens _ x = ⊥

  -- A script that stores and opens nothing.
  abbrev pub Keeps : View B → Text → View B → Type 0
  Keeps v j w =
      ((b : B) → (w.hash j).msg ≡ some b → (v.hash j).msg ≡ some b)
      × ((a : Text) → (w.hash j).attempt_id ≡ some a → (v.hash j).attempt_id ≡ some a)

  pub Keeps-Adds :
      (writes : Text → B → Type 0) (opens : Text → Type 0) (v w : View B) (j : Text)
      → Keeps v j w
      → Adds writes opens v w j
  Keeps-Adds writes opens v w j k = record {
    message = λ b e. inl (k.0 b e);
    attempt = λ a e. inl (k.1 a e);
  }

  pub Keeps-trans : (u v w : View B) (j : Text) → Keeps u j v → Keeps v j w → Keeps u j w
  Keeps-trans u v w j h k = (λ b e. h.0 b (k.0 b e), λ a e. h.1 a (k.1 a e))

  pub enqueue-Adds :
      (id : Text) (b : B) (p s : ℤ) (v : View B) (j : Text)
      → Adds
          (Writes (enqueue id b p s))
          (Opens (enqueue id b p s))
          v
          (enqueue_script (reference B) id b p s v).1
          j
  unfolding enqueue_script
  enqueue-Adds id b p s v j = record {
    message = λ c e. ground (arith, e, text_eq_iff id j);
    attempt = λ a e. inl (ground (arith, e, text_eq_iff id j));
  }

  move_ready_with :
      (z : ZName) (id : Text) (v : View B) (o : Option ℤ) (j : Text)
      → IsSource z
      → (v.hash id).rank ≡ o
      → Keeps v j (move_ready_body (reference B) z id v).1
  unfolding move_ready_body
  move_ready_with ZName.scheduled id v (some s) j w e =
      (λ b k. ground (arith, k, text_eq_iff id j), λ a k. ground (arith, k, text_eq_iff id j))
  move_ready_with ZName.scheduled id v none j w e =
      (λ b k. ground (arith, k), λ a k. ground (arith, k))
  move_ready_with ZName.retry id v (some s) j w e =
      (λ b k. ground (arith, k, text_eq_iff id j), λ a k. ground (arith, k, text_eq_iff id j))
  move_ready_with ZName.retry id v none j w e = (λ b k. ground (arith, k), λ a k. ground (arith, k))
  move_ready_with _ id v o j w e = absurd w

  pub claim-Adds :
      (l : List Text) (n t : ℤ) (a : Text) (v : View B) (j : Text)
      → Adds
          (Writes (claim n t a))
          (Opens (claim n t a))
          v
          (claim_members (reference B) l n t a v).1
          j
  unfolding claim_members
  claim-Adds [] n t a v j = record { message = λ b e. inl e; attempt = λ x e. inl e }
  claim-Adds (m ∷ l) n t a v j = record {
    message = λ b e. inl (ground (arith, e, text_eq_iff (candidate m) j, text_eq_iff m j));
    attempt = λ x e. ground (arith, e, text_eq_iff (candidate m) j, text_eq_iff m j);
  }

  pub schedule-Adds :
      (id : Text) (b : B) (p s t : ℤ) (v : View B) (j : Text)
      → Adds
          (Writes (schedule id b p s t))
          (Opens (schedule id b p s t))
          v
          (schedule_script (reference B) id b p s t v).1
          j
  unfolding schedule_script
  schedule-Adds id b p s t v j = record {
    message = λ c e. ground (arith, e, text_eq_iff id j);
    attempt = λ x e. inl (ground (arith, e, text_eq_iff id j));
  }

  pub ack-Adds :
      (id : Text) (b : B) (at : ℤ) (a : Text) (v : View B) (j : Text)
      → Adds
          (Writes (ack id b at a))
          (Opens (ack id b at a))
          v
          (ack_script (reference B) id b at a v).1
          j
  unfolding ack_script
  ack-Adds id b at a v j = record {
    message = λ c e. ground (arith, e, text_eq_iff id j);
    attempt = λ x e. inl (ground (arith, e, text_eq_iff id j));
  }

  pub retry-Adds :
      (id : Text) (b : B) (at : ℤ) (m a : Text) (v : View B) (j : Text)
      → Adds
          (Writes (retry id b at m a))
          (Opens (retry id b at m a))
          v
          (retry_script (reference B) id b at m a v).1
          j
  unfolding retry_script
  retry-Adds id b at m a v j = record {
    message = λ c e. ground (arith, e, text_eq_iff id j);
    attempt = λ x e. inl (ground (arith, e, text_eq_iff id j));
  }

  pub archive-Adds :
      (id : Text) (b : B) (m : Text) (at : ℤ) (a : Text) (v : View B) (j : Text)
      → Adds
          (Writes (archive id b m at a))
          (Opens (archive id b m at a))
          v
          (archive_script (reference B) id b m at a v).1
          j
  unfolding archive_script
  archive-Adds id b m at a v j = record {
    message = λ c e. ground (arith, e, text_eq_iff id j);
    attempt = λ x e. inl (ground (arith, e, text_eq_iff id j));
  }

  pub replay_with :
      (id : Text) (b : B) (v : View B) (o : Option ℤ) (j : Text)
      → (v.hash id).rank ≡ o
      → Adds
          (Writes (replay id b))
          (Opens (replay id b))
          v
          (replay_archived_script (reference B) id b v).1
          j
  unfolding replay_archived_script
  replay_with id b v (some s) j f = record {
    message = λ c e. ground (arith, e, text_eq_iff id j);
    attempt = λ x e. inl (ground (arith, e, text_eq_iff id j));
  }
  replay_with id b v none j f = record {
    message = λ c e. inl (ground (arith, e));
    attempt = λ x e. inl (ground (arith, e));
  }

  pub requeue_with :
      (id a : Text) (v : View B) (o : Option ℤ) (j : Text)
      → (v.hash id).rank ≡ o
      → Keeps v j (requeue_script (reference B) id a v).1
  unfolding requeue_script
  requeue_with id a v (some s) j f =
      (λ b k. ground (arith, k, text_eq_iff id j), λ x k. ground (arith, k, text_eq_iff id j))
  requeue_with id a v none j f =
      (λ b k. ground (arith, k, text_eq_iff id j), λ x k. ground (arith, k, text_eq_iff id j))

  pub extend-Keeps :
      (t : ℤ) (id a : Text) (v : View B) (j : Text)
      → Keeps v j (extend_body (reference B) t id a v).1
  unfolding extend_body
  extend-Keeps t id a v j = (λ b k. ground (arith, k), λ x k. ground (arith, k))

  pub delete-Keeps :
      (id : Text) (v : View B) (j : Text) → Keeps v j (delete_archived_script (reference B) id v).1
  unfolding delete_archived_script
  delete-Keeps id v j =
      (λ b k. ground (arith, k, text_eq_iff id j), λ x k. ground (arith, k, text_eq_iff id j))

  pub cleanup-Keeps :
      (id : Text) (v : View B) (j : Text) → Keeps v j (cleanup_body (reference B) id v).1
  unfolding cleanup_body
  cleanup-Keeps id v j =
      (λ b k. ground (arith, k, text_eq_iff id j), λ x k. ground (arith, k, text_eq_iff id j))

  pub Keeps-refl : (v : View B) (j : Text) → Keeps v j v
  Keeps-refl v j = (λ b k. k, λ x k. k)

  pub move_ready-Keeps :
      (z : ZName) (now : ℤ) (max : ℕ) (v : View B) (j : Text)
      → IsSource z
      → Keeps v j (move_ready_script (reference B) z now max v).1
  unfolding move_ready_script
  move_ready-Keeps z now max v j w =
      move_ready_loop-keeps (reference B) (Keeps v j) z max
        (λ id u k.
          Keeps-trans v u (move_ready_body (reference B) z id u).1 j k
            (move_ready_with z id u (u.hash id).rank j w refl))
        _ 0 v (Keeps-refl v j)
