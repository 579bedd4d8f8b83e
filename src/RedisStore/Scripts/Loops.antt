-- ===== src/RedisStore/Scripts/Loops.antt =====
-- What the body of a script's loop keeps, the loop keeps, however many rounds it makes.
use go_task_engine.Prelude.{ℕ, ◌+◌, List, [], ◌∷◌, leb, Bool-cases, inl, inr}
use go_task_engine.Prelude.Int.{ℤ}
use go_task_engine.Prelude.Text.{Text}
use go_task_engine.Redis.{Redis}
use go_task_engine.Redis.Keyspace.{ZName}
use go_task_engine.RedisStore.Scripts.Intake.{move_ready_body, move_ready_loop}
use go_task_engine.RedisStore.Scripts.Finish.{extend_body, extend_loop}
use go_task_engine.RedisStore.Scripts.DeadLetters.{cleanup_body, cleanup_loop}

module _ {ℓ} {B : Type 0} (r : Redis B) (P : r.Db → Type ℓ) where
  module _ (z : ZName) (max : ℕ)
      (keep : (id : Text) (d : r.Db) → P d → P (move_ready_body r z id d).1) where
    pub move_ready_loop-keeps :
        (ids : List Text) (n : ℕ) (d : r.Db) → P d → P (move_ready_loop r z max ids n d).1
    unfolding move_ready_loop
    move_ready_loop-keeps [] n d h = h
    move_ready_loop-keeps (id ∷ ids) n d h = elim (Bool-cases (leb max n)) [
      | inl full ↦ rw full h
      | inr room ↦ rw room (
          move_ready_loop-keeps ids (n + (move_ready_body r z id d).0) (move_ready_body r z id d).1
            (keep id d h))
    ]

  module _ (t : ℤ) (keep : (id a : Text) (d : r.Db) → P d → P (extend_body r t id a d).1) where
    pub extend_loop-keeps :
        (tasks : List (Text × Text)) (n : ℕ) (d : r.Db) → P d → P (extend_loop r t tasks n d).1
    unfolding extend_loop
    extend_loop-keeps [] n d h = h
    extend_loop-keeps ((id, a) ∷ tasks) n d h =
        extend_loop-keeps tasks (n + (extend_body r t id a d).0) (extend_body r t id a d).1
          (keep id a d h)

  module _ (max : ℕ) (keep : (id : Text) (d : r.Db) → P d → P (cleanup_body r id d).1) where
    pub cleanup_loop-keeps :
        (ids : List Text) (n : ℕ) (d : r.Db) → P d → P (cleanup_loop r max ids n d).1
    unfolding cleanup_loop
    cleanup_loop-keeps [] n d h = h
    cleanup_loop-keeps (id ∷ ids) n d h = elim (Bool-cases (leb max n)) [
      | inl full ↦ rw full h
      | inr room ↦ rw room (
          cleanup_loop-keeps ids (n + (cleanup_body r id d).0) (cleanup_body r id d).1
            (keep id d h))
    ]
