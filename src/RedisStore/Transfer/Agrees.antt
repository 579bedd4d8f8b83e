-- ===== src/RedisStore/Transfer/Agrees.antt =====
-- Two runs that reply the same and leave the same keys.
use go_task_engine.Prelude.{◌≡◌}
use go_task_engine.Redis.{Redis}
use go_task_engine.Redis.Keyspace.{View}

module _ {B : Type 0} (r : Redis B) where
  abbrev pub Agrees : {X : Type 0} → X × r.Db → X × View B → Type 0
  Agrees p q = (p.0 ≡ q.0) × (r.view p.1 ≡ q.1)
