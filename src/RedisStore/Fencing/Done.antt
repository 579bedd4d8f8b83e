-- ===== src/RedisStore/Fencing/Done.antt =====
-- What an attempt that owns its task gets when it ends it.
use go_task_engine.Prelude.{ℕ, ◌≡◌, ◌∙◌, ap, true, some, arith}
use go_task_engine.Prelude.Int.{ℤ}
use go_task_engine.Prelude.Text.{Text, text_eq_refl}
use go_task_engine.Model.{TaskState, completed, retry, archived}
use go_task_engine.Redis.{Redis}
use go_task_engine.Redis.Keyspace.{View}
use go_task_engine.Redis.Reference.{reference}
use go_task_engine.RedisStore.Scripts.Finish.{ack_script, retry_script, archive_script}
use go_task_engine.RedisStore.Transfer.Agrees.{Agrees}
use go_task_engine.RedisStore.Transfer.Finish.{ack-Agrees, retry-Agrees, archive-Agrees}
use go_task_engine.RedisStore.Fencing.Finish.{holds}

-- A reply of 1, and the task in the given state with the given message and no attempt.
abbrev pub Ended : {B : Type 0} (r : Redis B) → Text → B → TaskState → ℕ × r.Db → Type 0
Ended r id b s (n, d) =
    (n ≡ 1) × (((r.view d).hash id).state ≡ some s) × (((r.view d).hash id).msg ≡ some b)

module _ {B : Type 0} where
  reference-ack-Ended :
      (v : View B) (id : Text) (b : B) (at : ℤ) (a : Text)
      → holds a (v.hash id) ≡ true
      → Ended (reference B) id b completed (ack_script (reference B) id b at a v)
  unfolding ack_script
  reference-ack-Ended v id b at a h = ground (arith, text_eq_refl id)

  reference-retry-Ended :
      (v : View B) (id : Text) (b : B) (at : ℤ) (m a : Text)
      → holds a (v.hash id) ≡ true
      → Ended (reference B) id b retry (retry_script (reference B) id b at m a v)
  unfolding retry_script
  reference-retry-Ended v id b at m a h = ground (arith, text_eq_refl id)

  reference-archive-Ended :
      (v : View B) (id : Text) (b : B) (m : Text) (at : ℤ) (a : Text)
      → holds a (v.hash id) ≡ true
      → Ended (reference B) id b archived (archive_script (reference B) id b m at a v)
  unfolding archive_script
  reference-archive-Ended v id b m at a h = ground (arith, text_eq_refl id)

module _ {B : Type 0} (r : Redis B) where
  Agrees-Ended :
      (id : Text) (b : B) (s : TaskState) (p : ℕ × r.Db) (q : ℕ × View B)
      → Agrees r p q
      → Ended (reference B) id b s q
      → Ended r id b s p
  Agrees-Ended id b s p q (e, e') (n, t, m) = (
    e ∙ n,
    ap (λ (v : View B). (v.hash id).state) e' ∙ t,
    ap (λ (v : View B). (v.hash id).msg) e' ∙ m,
  )

  pub ack-Ended :
      (d : r.Db) (id : Text) (b : B) (at : ℤ) (a : Text)
      → holds a ((r.view d).hash id) ≡ true
      → Ended r id b completed (ack_script r id b at a d)
  ack-Ended d id b at a h =
      Agrees-Ended id b completed _ _ (ack-Agrees r id b at a d)
        (reference-ack-Ended (r.view d) id b at a h)

  pub retry-Ended :
      (d : r.Db) (id : Text) (b : B) (at : ℤ) (m a : Text)
      → holds a ((r.view d).hash id) ≡ true
      → Ended r id b retry (retry_script r id b at m a d)
  retry-Ended d id b at m a h =
      Agrees-Ended id b retry _ _ (retry-Agrees r id b at m a d)
        (reference-retry-Ended (r.view d) id b at m a h)

  pub archive-Ended :
      (d : r.Db) (id : Text) (b : B) (m : Text) (at : ℤ) (a : Text)
      → holds a ((r.view d).hash id) ≡ true
      → Ended r id b archived (archive_script r id b m at a d)
  archive-Ended d id b m at a h =
      Agrees-Ended id b archived _ _ (archive-Agrees r id b m at a d)
        (reference-archive-Ended (r.view d) id b m at a h)
