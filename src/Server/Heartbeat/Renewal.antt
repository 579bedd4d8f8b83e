-- ===== src/Server/Heartbeat/Renewal.antt =====
-- What a beat does to the leases of the tasks at work.
use go_task_engine.Prelude.{
  ◌≡◌, ◌⊎◌, refl, subst, Option, none, some, List, [], ◌∷◌, ◌++◌, inl, inr, Bool-cases,
}
use go_task_engine.Prelude.Int.{ℤ}
use go_task_engine.Prelude.Text.{Text, text_eq, text_eq→eq}
use go_task_engine.Errors.{Error}
use go_task_engine.Model.{TaskMessage}
use go_task_engine.Storage.{TaskSource}
use go_task_engine.Redis.{Redis}
use go_task_engine.Float.{Float64}
use go_task_engine.Result.{Result}
use go_task_engine.RedisStore.Store.Base.{Codec, sound}
use go_task_engine.RedisStore.Store.Finish.{owned_tasks}
use go_task_engine.RedisStore.Store.Leases.{
  Lists, Owns, Leased, until, lease_end, until-lease_end, extended-Owns, extended-Leased,
  extended-Lists,
}
use go_task_engine.Server.Process.{World}
use go_task_engine.Server.Dispatch.Order.{redis_source}
use go_task_engine.Server.Heartbeat.{
  ActiveKey, key_message, add_key, by_queue, beaten, beat_groups, heartbeat,
}

-- The key is among those that the server remembers.
abbrev pub Tracked : ActiveKey → List ActiveKey → Type 0
Tracked k [] = ⊥
Tracked k (j ∷ js) = (j ≡ k) ⊎ Tracked k js

module _ {B : Type 0} (r : Redis B) (json : Codec B) where
  abbrev Space : Type 0
  Space = Text → r.Db

  abbrev Groups : Type 0
  Groups = List (Text × List (Option TaskMessage))

  -- A group of the queue of the key has its task.
  abbrev Grouped : ActiveKey → Groups → Type 0
  Grouped k [] = ⊥
  Grouped k ((q, tasks) ∷ gs) =
      ((q ≡ k.queue) × Lists k.id k.attempt_id (owned_tasks r json tasks)) ⊎ Grouped k gs

  Lists-last :
      (k : ActiveKey) (tasks : List (Option TaskMessage))
      → Lists k.id k.attempt_id (owned_tasks r json (tasks ++ some (key_message k) ∷ []))
  unfolding owned_tasks key_message
  Lists-last k [] = inl (refl, refl)
  Lists-last k (none ∷ tasks) = Lists-last k tasks
  Lists-last k (some m ∷ tasks) = inr (Lists-last k tasks)

  Lists-before :
      (id a : Text) (tasks more : List (Option TaskMessage))
      → Lists id a (owned_tasks r json tasks)
      → Lists id a (owned_tasks r json (tasks ++ more))
  unfolding owned_tasks
  Lists-before id a [] more l = absurd l
  Lists-before id a (none ∷ tasks) more l = Lists-before id a tasks more l
  Lists-before id a (some m ∷ tasks) more (inl e) = inl e
  Lists-before id a (some m ∷ tasks) more (inr l) = inr (Lists-before id a tasks more l)

  add_key-Grouped : (k : ActiveKey) (gs : Groups) → Grouped k (add_key k gs)
  unfolding add_key
  add_key-Grouped k [] = inl (refl, Lists-last k [])
  add_key-Grouped k ((q, tasks) ∷ gs) = elim (Bool-cases (text_eq q k.queue)) [
    | inl e ↦ rw e (inl (text_eq→eq q k.queue e, Lists-last k tasks))
    | inr e ↦ rw e (inr (add_key-Grouped k gs))
  ]

  add_key-keeps : (j k : ActiveKey) (gs : Groups) → Grouped j gs → Grouped j (add_key k gs)
  unfolding add_key
  add_key-keeps j k [] g = absurd g
  add_key-keeps j k ((q, tasks) ∷ gs) (inl (e, l)) = elim (Bool-cases (text_eq q k.queue)) [
    | inl h ↦ rw h (inl (e, Lists-before j.id j.attempt_id tasks _ l))
    | inr h ↦ rw h (inl (e, l))
  ]
  add_key-keeps j k ((q, tasks) ∷ gs) (inr g) = elim (Bool-cases (text_eq q k.queue)) [
    | inl h ↦ rw h (inr g)
    | inr h ↦ rw h (inr (add_key-keeps j k gs g))
  ]

  by_queue-keeps :
      (j : ActiveKey) (ks : List ActiveKey) (gs : Groups)
      → Grouped j gs
      → Grouped j (by_queue ks gs)
  unfolding by_queue
  by_queue-keeps j [] gs g = g
  by_queue-keeps j (k ∷ ks) gs g = by_queue-keeps j ks (add_key k gs) (add_key-keeps j k gs g)

  by_queue-Grouped :
      (j : ActiveKey) (ks : List ActiveKey) (gs : Groups)
      → Tracked j ks
      → Grouped j (by_queue ks gs)
  unfolding by_queue
  by_queue-Grouped j [] gs h = absurd h
  by_queue-Grouped j (k ∷ ks) gs (inl e) =
      by_queue-keeps j ks (add_key k gs)
        (subst (λ (x : ActiveKey). Grouped x (add_key k gs)) e (add_key-Grouped k gs))
  by_queue-Grouped j (k ∷ ks) gs (inr h) = by_queue-Grouped j ks (add_key k gs) h

  module _ (f : Float64) (standard now lease : ℤ) (attempts : Text → Result Text) where
    abbrev source : TaskSource Space
    source = redis_source r json f standard sound attempts

    abbrev end : ℤ
    end = until r json standard now lease

    beaten-store :
        (p : Option Error × Space) (w : World Space) → (beaten source now lease p w).store ≡ p.1
    unfolding beaten
    beaten-store (none, sp) w = refl
    beaten-store (some e, sp) w = refl

    beat-Leased :
        (k : ActiveKey) (gs : Groups) (w : World Space)
        → Leased k.id k.attempt_id end (r.view (w.store k.queue))
        → Leased k.id k.attempt_id end (r.view ((beat_groups source now lease gs w).store k.queue))
    unfolding beat_groups
    beat-Leased k [] w h = h
    beat-Leased k ((q, tasks) ∷ gs) w h =
        beat-Leased k gs (beaten source now lease (source.extend_lease q tasks now lease w.store) w)
          (rw (beaten-store (source.extend_lease q tasks now lease w.store) w)
            (extended-Leased r json standard now lease q tasks w.store k.queue k.id k.attempt_id h))

    beat-Grouped :
        (k : ActiveKey) (gs : Groups) (w : World Space)
        → Grouped k gs
        → Owns k.id k.attempt_id (r.view (w.store k.queue))
        → Leased k.id k.attempt_id end (r.view ((beat_groups source now lease gs w).store k.queue))
    unfolding beat_groups
    beat-Grouped k [] w g h = absurd g
    beat-Grouped k ((q, tasks) ∷ gs) w (inl (e, l)) h =
        beat-Leased k gs (beaten source now lease (source.extend_lease q tasks now lease w.store) w)
          (rw (beaten-store (source.extend_lease q tasks now lease w.store) w, e)
            (extended-Lists r json standard now lease k.queue tasks w.store k.id k.attempt_id l h))
    beat-Grouped k ((q, tasks) ∷ gs) w (inr g) h =
        beat-Grouped k gs
          (beaten source now lease (source.extend_lease q tasks now lease w.store) w) g
          (rw (beaten-store (source.extend_lease q tasks now lease w.store) w)
            (extended-Owns r json standard now lease q tasks w.store k.queue k.id k.attempt_id h))

    -- On a connection that works, a beat leaves every task at work that its attempt still owns with a
    -- lease that lasts for the lease duration from the beat on, whatever queues the tasks are of.
    pub heartbeat-Leased :
        (k : ActiveKey) (ks : List ActiveKey) (w : World Space)
        → Tracked k ks
        → Owns k.id k.attempt_id (r.view (w.store k.queue))
        → Leased k.id k.attempt_id
            (lease_end standard now lease)
            (r.view ((heartbeat source now lease ks w).store k.queue))
    unfolding heartbeat
    heartbeat-Leased k ks w t h =
        subst
          (λ (t : ℤ).
            Leased k.id k.attempt_id t (r.view ((heartbeat source now lease ks w).store k.queue)))
          (until-lease_end r json standard now lease)
          (beat-Grouped k (by_queue ks []) w (by_queue-Grouped k ks [] t) h)
