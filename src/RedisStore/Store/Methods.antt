-- ===== src/RedisStore/Store/Methods.antt =====
-- The methods of the store, over any connection, as lists of scripts.
use go_task_engine.Prelude.{◌≡◌, refl, List, [], ◌∷◌, Bool-cases, inl, inr, subst, if◌then◌else◌}
use go_task_engine.Prelude.Text.{Text, text_eq, text_eq→eq}
use go_task_engine.Redis.{Redis}
use go_task_engine.RedisStore.Store.Base.{Link, sound, refused, cut, send, on_queue}
use go_task_engine.RedisStore.Calls.{Call, step, run}

module _ {B : Type 0} (r : Redis B) where
  abbrev pub Space : Type 0
  Space = Text → r.Db

  -- Every queue got from one keyspace to the other by running scripts.
  pub record Reaches (sp sp' : Space) : Type 0 where
    pub calls : Text → List (Call B)
    pub reached : (q : Text) → run r (calls q) (sp q) ≡ sp' q

  pub Reaches-refl : (sp : Space) → Reaches sp sp
  unfolding run
  Reaches-refl sp = record { calls = λ q. []; reached = λ q. refl }

  -- One queue runs scripts, and the others stay.
  reach_at :
      (q : Text) (cs : List (Call B)) (d : r.Db) (sp : Space)
      → run r cs (sp q) ≡ d
      → Reaches sp (λ j. if text_eq q j then d else sp j)
  unfolding run
  reach_at q cs d sp e = record {
    calls = λ j. if text_eq q j then cs else [];
    reached = λ j. elim (Bool-cases (text_eq q j)) [
      | inl h ↦ rw h (subst (λ (k : Text). run r cs (sp k) ≡ d) (text_eq→eq q j h) e)
      | inr h ↦ rw h
    ];
  }

  -- One script, sent over any connection.
  pub send-Reaches :
      {X : Type 0} (link : Link) (q : Text) (f : r.Db → X × r.Db) (c : Call B) (sp : Space)
      → ((d : r.Db) → step r c d ≡ (f d).1)
      → Reaches sp (on_queue q (send link f) sp).1
  unfolding on_queue send run
  send-Reaches sound q f c sp e = reach_at q (c ∷ []) (f (sp q)).1 sp (e (sp q))
  send-Reaches (refused x) q f c sp e = reach_at q [] (sp q) sp refl
  send-Reaches (cut x) q f c sp e = reach_at q (c ∷ []) (f (sp q)).1 sp (e (sp q))
