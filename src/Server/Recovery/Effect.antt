-- ===== src/Server/Recovery/Effect.antt =====
-- What the recovery of a task does to the queues.
use go_task_engine.Prelude.{
  ℕ, ◌≡◌, ◌≢◌, refl, sym, subst, false, Option, none, some, ◌∷◌, Bool-cases, inl, inr, arith,
}
use go_task_engine.Prelude.Int.{ℤ}
use go_task_engine.Prelude.Text.{Text}
use go_task_engine.Errors.{Error}
use go_task_engine.Result.{Result, ok, err}
use go_task_engine.Model.{TaskMessage, TaskState, state_eq, active}
use go_task_engine.Redis.{Redis}
use go_task_engine.RedisStore.Store.Base.{Codec, sound}
use go_task_engine.RedisStore.Store.Finish.{schedule_retry, archive}
use go_task_engine.Storage.{TaskStore}
use go_task_engine.Server.Metrics.{Metrics}
use go_task_engine.Server.Process.{World, exhausted, count_retry, conclude, recover, recover_found}
use go_task_engine.Server.OnRedis.{redis_store, Encodes}
use go_task_engine.Server.Recovery.{active_message, recovered, get-active, recover-Left}
use go_task_engine.Server.Recovery.Spares.{
  Ended, is_active, Sound, SparesAll, get-idle, archive-SparesAll, retry-SparesAll,
}

module _ {B : Type 0} (r : Redis B) (json : Codec B) where
  abbrev Space : Type 0
  Space = Text → r.Db

  module _ (now : ℤ) (text : Error → Text) (delay : ℤ → ℤ) (tick : ℤ) where
    abbrev store : TaskStore Space
    store = redis_store r json sound

    conclude_store :
        (count : Option Metrics → Option Metrics) (p : (Option Error × TaskMessage) × Space)
        (w : World Space)
        → (conclude store now text delay count p w).store ≡ p.1
    unfolding conclude
    conclude_store count ((none, m), sp) w = refl
    conclude_store count ((some e, m), sp) w = refl

    found-SparesAll :
        (m : TaskMessage) (a : Text) (w : World Space)
        → SparesAll r json m.queue m.id w.store
            (recover_found store now text delay tick (ok (active_message m a)) w).store
    unfolding recover_found count_retry schedule_retry archive
    found-SparesAll m a w = elim (Bool-cases (exhausted m)) [
      | inl c ↦
          rw (c, conclude_store _ _ w)
            (archive-SparesAll r json now (active_message m a) _ w.store _)
      | inr c ↦
          rw (c, conclude_store _ _ w)
            (retry-SparesAll r json now (count_retry (active_message m a)) _ _ w.store _)
    ]

    found-idle :
        (p : Result TaskMessage) (w : World Space)
        → ((m : TaskMessage) → p ≡ ok m → state_eq m.state active ≡ false)
        → (recover_found store now text delay tick p w).store ≡ w.store
    unfolding recover_found
    found-idle (err e) w h = refl
    found-idle (ok m) w h = rw (h m refl) refl

    -- The recovery of one task.
    pub record Recovers (q id : Text) (sp sp' : Space) : Type 0 where
      pub spares : SparesAll r json q id sp sp'
      pub ended :
          ((r.view (sp q)).hash id).state ≡ some active → Ended ((r.view (sp' q)).hash id).state
      pub idle : ((r.view (sp q)).hash id).state ≢ some active → sp' ≡ sp

    recover-idle :
        (q id : Text) (w : World Space)
        → ((r.view (w.store q)).hash id).state ≢ some active
        → (recover store now text delay tick q id w).store ≡ w.store
    unfolding recover
    recover-idle q id w ne = found-idle _ w (λ m e. get-idle r json q id w.store m ne e)

    recovered-Ended : (m : TaskMessage) (o : Option TaskState) → o ≡ some (recovered m) → Ended o
    recovered-Ended m o e = ground (arith, e)

    -- What the recovery of an active task comes to.
    abbrev Recovered : World Space → Text → Text → Type 0
    Recovered w q id =
        SparesAll r json q id w.store (recover store now text delay tick q id w).store
        × Ended ((r.view ((recover store now text delay tick q id w).store q)).hash id).state

    recover-at :
        (codec : Encodes r json) (n : codec.CanWrite now) (m : TaskMessage) (b : B) (c : ℕ)
        (cs : Text) (w : World Space)
        → json.unmarshal b ≡ ok m
        → ((r.view (w.store m.queue)).hash m.id).msg ≡ some b
        → ((r.view (w.store m.queue)).hash m.id).state ≡ some active
        → ((r.view (w.store m.queue)).hash m.id).attempt_id ≡ some (c ∷ cs)
        → Recovered w m.queue m.id
    unfolding recover
    recover-at codec n m b c cs w e h s a = (
      rw (get-active r json m b c cs w.store h s a e) (found-SparesAll m (c ∷ cs) w),
      recovered-Ended m _ (recover-Left r json codec now tick text delay m b c cs w n h s a e).0,
    )

    -- Recovered, once the task has this message and this attempt and is active.
    abbrev Once : Text → Text → B → ℕ → Text → World Space → Type 0
    Once q id b c cs w =
        ((r.view (w.store q)).hash id).msg ≡ some b
        → ((r.view (w.store q)).hash id).state ≡ some active
        → ((r.view (w.store q)).hash id).attempt_id ≡ some (c ∷ cs)
        → Recovered w q id

    recover-Recovered :
        (codec : Encodes r json) (n : codec.CanWrite now) (q id : Text) (w : World Space)
        → Sound json q id (r.view (w.store q))
        → ((r.view (w.store q)).hash id).state ≡ some active
        → Recovered w q id
    recover-Recovered codec n q id w k s =
        subst (λ (p : Text). Once p id k.encoded k.first k.rest w) k.queue
          (subst (λ (j : Text). Once k.message.queue j k.encoded k.first k.rest w) k.id_of
            (recover-at codec n k.message k.encoded k.first k.rest w k.decoded))
          k.has_msg s k.has_attempt

    pub recover-Recovers :
        (codec : Encodes r json) (n : codec.CanWrite now) (q id : Text) (w : World Space)
        → (((r.view (w.store q)).hash id).state ≡ some active
            → Sound json q id (r.view (w.store q)))
        → Recovers q id w.store (recover store now text delay tick q id w).store
    recover-Recovers codec n q id w k = elim (is_active ((r.view (w.store q)).hash id).state) [
      | inl s ↦
          let done = recover-Recovered codec n q id w (k s) s in
          record { spares = done.0; ended = λ e. done.1; idle = λ ne. absurd (ne s) }
      | inr ne ↦
          let same = recover-idle q id w ne in
          record {
            spares =
                subst (λ (sp : Space). SparesAll r json q id w.store sp) (sym same)
                  (λ p d. refl, λ j d. refl, λ s j h. h);
            ended = λ e. absurd (ne e);
            idle = λ d. same;
          }
    ]
