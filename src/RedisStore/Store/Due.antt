-- ===== src/RedisStore/Store/Due.antt =====
-- MoveReady on a connection that works: the tasks whose time has come.
use go_task_engine.Prelude.{
  ℕ, ◌+◌, ◌≤◌, ◌≡◌, refl, true, ◌&&◌, some, List, [], ◌∷◌, Bool-cases, inl, inr, arith, length, All,
}
use go_task_engine.Prelude.Int.{ℤ, ◌≤ℤ◌}
use go_task_engine.Prelude.Text.{Text, text_eq}
use go_task_engine.Float.{Float64}
use go_task_engine.Model.{pending, unix_milli}
use go_task_engine.Redis.{Redis}
use go_task_engine.Redis.Keyspace.{ZName, scheduled, retry, get_zset, zscore, score_range}
use go_task_engine.Redis.Ranges.{has}
use go_task_engine.RedisStore.Scripts.Intake.{move_ready_script}
use go_task_engine.RedisStore.Invariant.Records.{Inv}
use go_task_engine.RedisStore.Invariant.Intake.{IsSource}
use go_task_engine.RedisStore.Store.Base.{Codec, sound, send, on_queue, limit_of, most, limit-most}
use go_task_engine.RedisStore.Store.Intake.{move_on, move_all, sources, move_ready}
use go_task_engine.RedisStore.Store.Moves.{
  same_source, visits, moved_by, AllInv, IsPending, IsDue, moved-Inv, moved-IsPending, moved-IsDue,
  moved-here,
}

module _ {B : Type 0} (r : Redis B) (json : Codec B) (f : Float64) (now : ℤ) (max : ℕ) where
  all-step :
      (p : Text) (y : ZName) (l : List (Text × ZName)) (n : ℕ) (sp : Text → r.Db)
      → (move_all r json f (λ q k. sound) now max ((p, y) ∷ l) n sp).1
        ≡ (move_all r json f
            (λ q k. sound)
            now
            max
            l
            (n + (move_ready_script r y (unix_milli now) max (sp p)).0)
            (moved_by r now max p y sp)).1
  unfolding move_all send on_queue move_on
  all-step p y l n sp = refl

  abbrev AreSources : List (Text × ZName) → Type 0
  AreSources = All (λ x. IsSource x.1)

  all-IsPending :
      (l : List (Text × ZName)) (n : ℕ) (q id : Text) (sp : Text → r.Db)
      → AreSources l
      → AllInv r now max sp
      → IsPending r now max q id sp
      → IsPending r now max q id (move_all r json f (λ q k. sound) now max l n sp).1
  unfolding move_all
  all-IsPending [] n q id sp w h e = e
  all-IsPending ((p, y) ∷ l) n q id sp w h e = rw (all-step p y l n sp) (
      all-IsPending l _ q id (moved_by r now max p y sp) w.1 (moved-Inv r now max p y sp w.0 h)
        (moved-IsPending r now max p y q id sp w.0 h e))

  all-IsDue :
      (l : List (Text × ZName)) (n : ℕ) (q : Text) (z : ZName) (id : Text) (sp : Text → r.Db)
      → AreSources l
      → IsSource z
      → AllInv r now max sp
      → visits q z l ≡ true
      → IsDue r now max q z id sp
      → IsPending r now max q id (move_all r json f (λ q k. sound) now max l n sp).1
  unfolding move_all
  all-IsDue [] n q z id sp w k h v d = absurd (ground arith)
  all-IsDue ((p, y) ∷ l) n q z id sp w k h v d =
      let inv = moved-Inv r now max p y sp w.0 h in
      rw (all-step p y l n sp) (elim (Bool-cases (text_eq p q && same_source y z)) [
        | inl here ↦
            all-IsPending l _ q id (moved_by r now max p y sp) w.1 inv
              (moved-here r now max p y q z id sp k h here d)
        | inr other ↦
            all-IsDue l _ q z id (moved_by r now max p y sp) w.1 k inv (ground arith)
              (moved-IsDue r now max p y q z id sp w.0 k h other d)
      ])

module _ {B : Type 0} (r : Redis B) (json : Codec B) (f : Float64) where
  visits-sources :
      (q : Text) (z : ZName) (qs : List Text)
      → IsSource z
      → has q qs ≡ true
      → visits q z (sources r json f qs) ≡ true
  visits-sources q z [] w h = absurd (ground arith)
  visits-sources q scheduled (p ∷ qs) w h = ground (arith, visits-sources q scheduled qs w)
  visits-sources q retry (p ∷ qs) w h = ground (arith, visits-sources q retry qs w)
  visits-sources q _ (p ∷ qs) w h = absurd w

  sources-AreSources : (qs : List Text) → All (λ x. IsSource x.1) (sources r json f qs)
  sources-AreSources [] = tt
  sources-AreSources (q ∷ qs) = (tt, (tt, sources-AreSources qs))

  -- A scheduled task, or one that waits for a retry, whose time has come is pending after MoveReady has
  -- looked at its queue, when no more tasks than the limit are due in its sorted set. Every queue is in
  -- order, and the connection works.
  pub move_ready-pending :
      (now limit : ℤ) (qs : List Text) (sp : Text → r.Db) (q : Text) (z : ZName) (id : Text)
      (at : ℤ)
      → IsSource z
      → ((p : Text) → Inv (r.view (sp p)))
      → has q qs ≡ true
      → zscore id (get_zset z (r.view (sp q))) ≡ some at
      → at ≤ℤ unix_milli now
      → length (score_range (unix_milli now) (get_zset z (r.view (sp q)))) ≤ most limit
      → ((r.view ((move_ready r json f (λ p y. sound) now limit qs sp).1 q)).hash id).state
        ≡ some pending
  unfolding move_ready
  move_ready-pending now limit qs sp q z id at w h served waits due few =
      all-IsDue r json f now (limit_of limit) (sources r json f qs) 0 q z id sp
        (sources-AreSources qs) w h (visits-sources q z qs w served)
        (record { at = at; waits = waits; due = due; few = rw (limit-most limit) few })
