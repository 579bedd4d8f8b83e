-- ===== src/Server/Dispatch/Delivery.antt =====
-- A task from Enqueue to a worker.
use go_task_engine.Prelude.{
  ◌≡◌, ◌≢◌, ◌∙◌, sym, subst, ap, false, Option, none, some, List, ◌∷◌, Bool-cases, inl, inr, arith,
}
use go_task_engine.Prelude.Int.{ℤ, pos}
use go_task_engine.Prelude.Text.{Text, text_eq, text_eq_refl, text_eq→eq, text_eq_iff}
use go_task_engine.Result.{ok}
use go_task_engine.Float.{Float64}
use go_task_engine.Model.{TaskMessage, pending, validate}
use go_task_engine.Redis.{Redis}
use go_task_engine.Redis.Keyspace.{View, has_field}
use go_task_engine.Redis.Reference.{reference}
use go_task_engine.RedisStore.Scripts.Intake.{enqueue_script}
use go_task_engine.RedisStore.Invariant.Records.{Inv}
use go_task_engine.RedisStore.Transfer.Intake.{enqueue-Agrees}
use go_task_engine.RedisStore.Calls.Order.{run-Inv}
use go_task_engine.RedisStore.Calls.Ranked.{Ranked, run-Ranked}
use go_task_engine.RedisStore.Store.Base.{Codec, sound, on_queue, send}
use go_task_engine.RedisStore.Store.Intake.{task_rank, enqueue, enqueue_checked, enqueue_valid}
use go_task_engine.RedisStore.Store.Arrivals.{Stored, enqueue-Stored}
use go_task_engine.RedisStore.Store.Reach.{enqueue-Reaches}
use go_task_engine.Storage.{TaskSource}
use go_task_engine.Server.Process.{World}
use go_task_engine.Server.Dispatch.{claim_first}
use go_task_engine.Server.Dispatch.Order
use go_task_engine.Server.Dispatch.Order.{NoPending, active_copy, redis_source, claim_first-Served}

-- Enqueue changes no other task.
reference-others :
    {B : Type 0} (id j : Text) (b : B) (p rank : ℤ) (v : View B)
    → j ≢ id
    → (enqueue_script (reference B) id b p rank v).1.hash j ≡ v.hash j
unfolding enqueue_script
reference-others id j b p rank v n = ground (arith, text_eq_iff id j)

module _ {B : Type 0} (r : Redis B) (json : Codec B) (f : Float64) where
  abbrev Space : Type 0
  Space = Text → r.Db

  abbrev pub Ready : Space → Type 0
  Ready sp = (q : Text) → Inv (r.view (sp q)) × Ranked (r.view (sp q))

  enqueue-Ready : (m : TaskMessage) (sp : Space) → Ready sp → Ready (enqueue r json f sound m sp).1
  enqueue-Ready m sp h q =
      let reach = enqueue-Reaches r json f sound m sp in
      (
        subst (λ (d : r.Db). Inv (r.view d)) (reach.reached q)
            (run-Inv r (reach.calls q) (sp q) (h q).0),
        subst (λ (d : r.Db). Ranked (r.view d)) (reach.reached q)
            (run-Ranked r (reach.calls q) (sp q) (h q).1),
      )

  enqueue-others :
      (m : TaskMessage) (b : B) (sp : Space) (j : Text)
      → validate (some m) ≡ none
      → json.marshal m ≡ ok b
      → j ≢ m.id
      → (r.view ((enqueue r json f sound m sp).1 m.queue)).hash j ≡ (r.view (sp m.queue)).hash j
  unfolding enqueue enqueue_checked enqueue_valid on_queue send
  enqueue-others m b sp j v e n =
      rw (v, e, text_eq_refl m.queue)
        (ap (λ (x : View B). x.hash j)
            (enqueue-Agrees r m.id b m.priority (task_rank f m) (sp m.queue)).1
          ∙ reference-others m.id j b m.priority (task_rank f m) (r.view (sp m.queue)) n)

  module _ (standard : ℤ) (attempts : Text → Text) (now : Text → ℤ) (poll lease : ℤ) where
    abbrev source : TaskSource Space
    source = redis_source r json f standard sound (λ q. ok (attempts q))

    served-message :
        (m : TaskMessage) (b : B) (sp sp' : Space) (o : Option TaskMessage) (qs : List Text)
        → json.unmarshal b ≡ ok m
        → ((r.view (sp m.queue)).hash m.id).state ≡ some pending
        → ((r.view (sp m.queue)).hash m.id).msg ≡ some b
        → ((j : Text) → j ≢ m.id → ((r.view (sp m.queue)).hash j).state ≢ some pending)
        → Order.Served r json f standard attempts now poll lease sp sp' o (m.queue ∷ qs)
        → o ≡ some (active_copy r json f standard m (attempts m.queue))
    served-message m b sp sp' o qs d p k others (Order.Served.passed none_left rest) =
        absurd (none_left m.id p)
    served-message m b sp sp' o qs d p k others (Order.Served.taken b' m' c d' e) =
        elim (Bool-cases (text_eq c.id m.id)) [
          | inl s ↦
              let i : c.id ≡ m.id = text_eq→eq c.id m.id s in
              let stored : some b' ≡ some b =
                sym c.message ∙ ap (λ (j : Text). ((r.view (sp m.queue)).hash j).msg) i ∙ k in
              let same_b : b' ≡ b = cc in
              let decoded : ok m' ≡ ok m = sym d' ∙ ap json.unmarshal same_b ∙ d in
              let same_m : m' ≡ m = cc in
              e
              ∙ ap (λ (x : TaskMessage). some (active_copy r json f standard x (attempts m.queue)))
                  same_m
          | inr s ↦
              absurd (others c.id (λ q. ground (arith, text_eq_iff c.id m.id, q)) c.was_pending)
        ]

    -- A task enqueued under a new id on a queue with no pending task is the one that dispatch takes,
    -- whatever the queues after it in its order: active, and under the attempt of the claim. Every
    -- queue is in order with its pending tasks in the order of their ranks, the message is valid,
    -- stored messages can be decoded and decoding undoes the encoding of this one, and the connection
    -- works.
    pub claim_first-enqueue :
        (decodes : (b : B) → (m : TaskMessage) × (json.unmarshal b ≡ ok m)) (m : TaskMessage)
        (b : B) (w : World Space) (qs : List Text)
        → Ready w.store
        → validate (some m) ≡ none
        → json.marshal m ≡ ok b
        → json.unmarshal b ≡ ok m
        → has_field ((r.view (w.store m.queue)).hash m.id) ≡ false
        → NoPending (r.view (w.store m.queue))
        → (claim_first source
            (pos 0)
            now
            poll
            lease
            (m.queue ∷ qs)
            (record w { store = (enqueue r json f sound m w.store).1 })).0
          ≡ some (active_copy r json f standard m (attempts m.queue))
    claim_first-enqueue decodes m b w qs h v e d fresh empty =
        let sp = (enqueue r json f sound m w.store).1 in
        let kept : Stored r json f false m b pending w.store (enqueue r json f sound m w.store) =
          rw fresh at (enqueue-Stored r json f m b w.store v e) in
        served-message m b sp _ _ qs d kept.1 kept.2
          (λ j n. rw (enqueue-others m b w.store j v e n) (empty j))
          (claim_first-Served r json f standard attempts now poll lease decodes (m.queue ∷ qs)
            (record w { store = sp }) (enqueue-Ready m w.store h))
