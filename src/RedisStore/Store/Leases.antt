-- ===== src/RedisStore/Store/Leases.antt =====
-- What ExtendLease does to the leases of the attempts that it names.
use go_task_engine.Prelude.{
  ℕ, ◌+◌, ◌≡◌, ◌⊎◌, refl, subst, true, Option, some, List, [], ◌∷◌, inl, inr, Bool-cases, arith,
  if◌then◌else◌,
}
use go_task_engine.Prelude.Int.{ℤ, pos, ltb_ℤ, ◌+ℤ◌}
use go_task_engine.Prelude.Text.{Text, text_eq, text_eq_refl, text_eq_iff, text_eq→eq}
use go_task_engine.Model.{TaskMessage, unix_milli}
use go_task_engine.Redis.{Redis}
use go_task_engine.Redis.Keyspace.{View, zscore}
use go_task_engine.Redis.SortedSets.{zscore-zinsert, zscore-zdelete}
use go_task_engine.Redis.Reference.{reference}
use go_task_engine.RedisStore.Scripts.Finish.{extend_body, extend_loop, extend_lease_script}
use go_task_engine.RedisStore.Transfer.Finish.{extend_lease-Agrees}
use go_task_engine.RedisStore.Fencing.Finish.{holds}
use go_task_engine.RedisStore.Store.Base.{Codec, sound, send, on_queue, or_default}
use go_task_engine.RedisStore.Store.Finish.{owned_tasks, extend_owned, extend_lease}

-- The attempt is among those listed.
abbrev pub Lists : Text → Text → List (Text × Text) → Type 0
Lists id a [] = ⊥
Lists id a ((j, b) ∷ tasks) = ((j ≡ id) × (b ≡ a)) ⊎ Lists id a tasks

-- The attempt owns its task.
abbrev pub Owns : {B : Type 0} → Text → Text → View B → Type 0
Owns id a v = holds a (v.hash id) ≡ true

-- The attempt owns its task, whose lease lasts until `t`.
abbrev pub Leased : {B : Type 0} → Text → Text → ℤ → View B → Type 0
Leased id a t v = Owns id a v × (zscore id v.lease ≡ some t)

module _ {B : Type 0} (t : ℤ) where
  body-Owns :
      (id a j b : Text) (v : View B) → Owns id a v → Owns id a (extend_body (reference B) t j b v).1
  unfolding extend_body
  body-Owns id a j b v h = ground arith

  body-Leased :
      (id a j b : Text) (v : View B)
      → Leased id a t v
      → Leased id a t (extend_body (reference B) t j b v).1
  unfolding extend_body
  body-Leased id a j b v h =
      ground (arith, zscore-zinsert id t j v.lease, zscore-zdelete id j v.lease, text_eq_iff j id)

  body-own :
      (id a : Text) (v : View B)
      → Owns id a v
      → Leased id a t (extend_body (reference B) t id a v).1
  unfolding extend_body
  body-own id a v h = ground (arith, zscore-zinsert id t id v.lease, text_eq_refl id)

  loop-Owns :
      (id a : Text) (tasks : List (Text × Text)) (n : ℕ) (v : View B)
      → Owns id a v
      → Owns id a (extend_loop (reference B) t tasks n v).1
  unfolding extend_loop
  loop-Owns id a [] n v h = h
  loop-Owns id a ((j, b) ∷ tasks) n v h =
      loop-Owns id a tasks (n + (extend_body (reference B) t j b v).0)
        (extend_body (reference B) t j b v).1 (body-Owns id a j b v h)

  loop-Leased :
      (id a : Text) (tasks : List (Text × Text)) (n : ℕ) (v : View B)
      → Leased id a t v
      → Leased id a t (extend_loop (reference B) t tasks n v).1
  unfolding extend_loop
  loop-Leased id a [] n v h = h
  loop-Leased id a ((j, b) ∷ tasks) n v h =
      loop-Leased id a tasks (n + (extend_body (reference B) t j b v).0)
        (extend_body (reference B) t j b v).1 (body-Leased id a j b v h)

  loop-Lists :
      (id a : Text) (tasks : List (Text × Text)) (n : ℕ) (v : View B)
      → Lists id a tasks
      → Owns id a v
      → Leased id a t (extend_loop (reference B) t tasks n v).1
  unfolding extend_loop
  loop-Lists id a [] n v l h = absurd l
  loop-Lists id a ((j, b) ∷ tasks) n v (inl (e, e')) h =
      loop-Leased id a tasks (n + (extend_body (reference B) t j b v).0)
        (extend_body (reference B) t j b v).1 (rw (e, e') (body-own id a v h))
  loop-Lists id a ((j, b) ∷ tasks) n v (inr l) h =
      loop-Lists id a tasks (n + (extend_body (reference B) t j b v).0)
        (extend_body (reference B) t j b v).1 l (body-Owns id a j b v h)

-- When a lease that starts now ends: after its own duration when it is positive, else after the one
-- of the store, in milliseconds.
abbrev pub lease_end : ℤ → ℤ → ℤ → ℤ
lease_end standard now lease = unix_milli (now +ℤ (if ltb_ℤ (pos 0) lease then lease else standard))

positive-or_default :
    (standard lease : ℤ)
    → or_default standard lease ≡ (if ltb_ℤ (pos 0) lease then lease else standard)
positive-or_default standard lease = ground arith

module _ {B : Type 0} (r : Redis B) (json : Codec B) (standard now lease : ℤ) where
  abbrev Space : Type 0
  Space = Text → r.Db

  abbrev pub until : ℤ
  until = unix_milli (now +ℤ or_default standard lease)

  pub until-lease_end : until ≡ lease_end standard now lease
  until-lease_end = rw (positive-or_default standard lease) refl

  abbrev pub extended : Text → List (Option TaskMessage) → Space → Space
  extended q tasks sp = (extend_lease r json sound standard q tasks now lease sp).1

  abbrev renewed : List (Text × Text) → View B → View B
  renewed l v = (extend_lease_script (reference B) until l v).1

  owned-view :
      (q : Text) (l : List (Text × Text)) (sp : Space) (j : Text)
      → r.view ((extend_owned r json sound q until l sp).1 j)
        ≡ (if text_eq q j then renewed l (r.view (sp j)) else r.view (sp j))
  unfolding extend_owned on_queue send extend_lease_script extend_loop
  owned-view q [] sp j = elim (Bool-cases (text_eq q j)) [ inl e ↦ rw e refl | inr e ↦ rw e refl ]
  owned-view q (task ∷ tasks) sp j = elim (Bool-cases (text_eq q j)) [
    | inl e ↦ rw e (
        subst
          (λ (k : Text).
            r.view (extend_lease_script r until (task ∷ tasks) (sp q)).1
            ≡ renewed (task ∷ tasks) (r.view (sp k)))
          (text_eq→eq q j e) (extend_lease-Agrees r until (task ∷ tasks) (sp q)).1)
    | inr e ↦ rw e refl
  ]

  extended-view :
      (q : Text) (tasks : List (Option TaskMessage)) (sp : Space) (j : Text)
      → r.view (extended q tasks sp j) ≡ (
          if text_eq q j then renewed (owned_tasks r json tasks) (r.view (sp j)) else r.view (sp j))
  unfolding extend_lease
  extended-view q tasks sp j = owned-view q (owned_tasks r json tasks) sp j

  pub extended-Owns :
      (q : Text) (tasks : List (Option TaskMessage)) (sp : Space) (j id a : Text)
      → Owns id a (r.view (sp j))
      → Owns id a (r.view (extended q tasks sp j))
  unfolding extend_lease_script
  extended-Owns q tasks sp j id a h = elim (Bool-cases (text_eq q j)) [
    | inl e ↦
        rw (extended-view q tasks sp j, e) (loop-Owns until id a (owned_tasks r json tasks) 0 _ h)
    | inr e ↦ rw (extended-view q tasks sp j, e) h
  ]

  pub extended-Leased :
      (q : Text) (tasks : List (Option TaskMessage)) (sp : Space) (j id a : Text)
      → Leased id a until (r.view (sp j))
      → Leased id a until (r.view (extended q tasks sp j))
  unfolding extend_lease_script
  extended-Leased q tasks sp j id a h = elim (Bool-cases (text_eq q j)) [
    | inl e ↦
        rw (extended-view q tasks sp j, e) (loop-Leased until id a (owned_tasks r json tasks) 0 _ h)
    | inr e ↦ rw (extended-view q tasks sp j, e) h
  ]

  -- Each listed attempt that owns its task has a lease that lasts until then.
  pub extended-Lists :
      (q : Text) (tasks : List (Option TaskMessage)) (sp : Space) (id a : Text)
      → Lists id a (owned_tasks r json tasks)
      → Owns id a (r.view (sp q))
      → Leased id a until (r.view (extended q tasks sp q))
  unfolding extend_lease_script
  extended-Lists q tasks sp id a l h =
      rw (extended-view q tasks sp q, text_eq_refl q)
        (loop-Lists until id a (owned_tasks r json tasks) 0 (r.view (sp q)) l h)
