-- ===== src/RedisStore/Store/Arrivals.antt =====
-- What Enqueue and Schedule come to on a connection that works.
use go_task_engine.Prelude.{
  ℕ, ◌≡◌, ◌∙◌, refl, ap, Bool, true, false, Option, none, some, String, Bool-cases, inl, inr, arith,
}
use go_task_engine.Prelude.Int.{ℤ}
use go_task_engine.Prelude.Text.{Text, text_eq, text_eq_refl, text_eq→eq}
use go_task_engine.Errors.{Error, sentinel, task_exists}
use go_task_engine.Result.{ok}
use go_task_engine.Float.{Float64}
use go_task_engine.Model.{TaskMessage, TaskState, validate}
use go_task_engine.Redis.{Redis}
use go_task_engine.Redis.Keyspace.{View, has_field}
use go_task_engine.Redis.Reference.{reference}
use go_task_engine.RedisStore.Scripts.Intake.{enqueue_script}
use go_task_engine.RedisStore.Transfer.Agrees.{Agrees}
use go_task_engine.RedisStore.Transfer.Intake.{enqueue-Agrees}
use go_task_engine.RedisStore.Store.Base.{Codec, sound, send, on_queue, settle}
use go_task_engine.RedisStore.Store.Intake.{task_rank, enqueue_valid, enqueue_checked, enqueue}

module _ {B : Type 0} (r : Redis B) where
  -- A script that met the task leaves the keys as they were; else the task is there with its state.
  abbrev pub Arrived : Bool → Text → B → TaskState → r.Db → ℕ × r.Db → Type 0
  Arrived true id b s d (n, d') = (n ≡ 0) × (d' ≡ d)
  Arrived false id b s d (n, d') =
      (n ≡ 1) × (((r.view d').hash id).state ≡ some s) × (((r.view d').hash id).msg ≡ some b)

module _ {B : Type 0} where
  reference-enqueue-Arrived :
      (v : View B) (id : Text) (b : B) (p k : ℤ)
      → has_field (v.hash id) ≡ false
      → Arrived
          (reference B)
          false
          id
          b
          TaskState.pending
          v
          (enqueue_script (reference B) id b p k v)
  unfolding enqueue_script
  reference-enqueue-Arrived v id b p k h = ground (arith, text_eq_refl id)

module _ {B : Type 0} (r : Redis B) where
  pub Agrees-Arrived :
      (id : Text) (b : B) (s : TaskState) (d : r.Db) (p : ℕ × r.Db) (q : ℕ × View B)
      → Agrees r p q
      → Arrived (reference B) false id b s (r.view d) q
      → Arrived r false id b s d p
  Agrees-Arrived id b s d p q (e, e') (n, t, m) = (
    e ∙ n,
    ap (λ (v : View B). (v.hash id).state) e' ∙ t,
    ap (λ (v : View B). (v.hash id).msg) e' ∙ m,
  )

  enqueue-known :
      (d : r.Db) (id : Text) (b : B) (p k : ℤ)
      → has_field ((r.view d).hash id) ≡ true
      → enqueue_script r id b p k d ≡ (0, d)
  unfolding enqueue_script
  enqueue-known d id b p k h = ground (arith, r.exists_law id d)

  enqueue-Arrived :
      (d : r.Db) (id : Text) (b : B) (p k : ℤ)
      → Arrived r
          (has_field ((r.view d).hash id))
          id
          b
          TaskState.pending
          d
          (enqueue_script r id b p k d)
  enqueue-Arrived d id b p k = elim (Bool-cases (has_field ((r.view d).hash id))) [
    | inl h ↦ rw (h, enqueue-known d id b p k h) (refl, refl)
    | inr h ↦ rw h (
        Agrees-Arrived id b TaskState.pending d _ _ (enqueue-Agrees r id b p k d)
          (reference-enqueue-Arrived (r.view d) id b p k h))
  ]

module _ {B : Type 0} (r : Redis B) (json : Codec B) (f : Float64) where
  abbrev Space : Type 0
  Space = Text → r.Db

  -- For a task that was there, ErrTaskExists, the message and every queue as they were; else no error,
  -- the message with the state, and the task in its queue with the state and the encoded message.
  abbrev pub Stored :
      Bool → TaskMessage → B → TaskState → Space → (Option Error × TaskMessage) × Space → Type 0
  Stored true m b s sp (x, sp') =
      (x ≡ (some (sentinel task_exists), m)) × ((q : Text) → sp' q ≡ sp q)
  Stored false m b s sp (x, sp') =
      (x ≡ (none, record m { state = s }))
      × (((r.view (sp' m.queue)).hash m.id).state ≡ some s)
      × (((r.view (sp' m.queue)).hash m.id).msg ≡ some b)

  sent-Stored :
      (known : Bool) (what : String) (m : TaskMessage) (b : B) (s : TaskState) (g : r.Db → ℕ × r.Db)
      (sp : Space)
      → Arrived r known m.id b s (sp m.queue) (g (sp m.queue))
      → Stored known m b s sp (
        settle what task_exists
            (λ m. record m { state = s })
            m
            (on_queue m.queue (send sound g) sp).0,
        (on_queue m.queue (send sound g) sp).1,
      )
  unfolding on_queue send settle
  sent-Stored true what m b s g sp (e, e') =
      rw (e, e')
        (
          refl,
          λ q. elim (Bool-cases (text_eq m.queue q)) [
            | inl h ↦ rw h (ap sp (text_eq→eq m.queue q h))
            | inr h ↦ rw h
          ],
        )
  sent-Stored false what m b s g sp (n, t, k) = rw (n, text_eq_refl m.queue) (refl, t, k)

  -- On a connection that works, Enqueue of a valid message that can be encoded refuses an id that is
  -- taken with ErrTaskExists and leaves every queue as it was; a new task is then pending in its
  -- queue with that encoding.
  pub enqueue-Stored :
      (m : TaskMessage) (b : B) (sp : Space)
      → validate (some m) ≡ none
      → json.marshal m ≡ ok b
      → Stored
          (has_field ((r.view (sp m.queue)).hash m.id))
          m
          b
          TaskState.pending
          sp
          (enqueue r json f sound m sp)
  unfolding enqueue enqueue_checked enqueue_valid
  enqueue-Stored m b sp v e =
      rw (v, e)
        (sent-Stored _ "enqueue task" m b TaskState.pending
          (enqueue_script r m.id b m.priority (task_rank f m)) sp
          (enqueue-Arrived r (sp m.queue) m.id b m.priority (task_rank f m)))
