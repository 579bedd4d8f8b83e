-- ===== src/RedisStore/Scripts/Replies.antt =====
-- How the Lua scripts read a reply of HGET.
use go_task_engine.Prelude.{◌≡◌, ◌↔◌, Bool, true, false, Option, none, some, arith}
use go_task_engine.Prelude.Text.{Text, text_eq, text_eq_iff}
use go_task_engine.Model.{TaskState, state_eq}

-- Comparisons with the reply of HGET, which is `false` for a field that is missing.
abbrev pub is_state : TaskState → Option TaskState → Bool
is_state s none = false
is_state s (some t) = state_eq t s

abbrev pub is_text : Text → Option Text → Bool
is_text m none = false
is_text m (some t) = text_eq t m

-- `if not rankMember then rankMember = id end`
abbrev pub or_id : Option Text → Text → Text
or_id none id = id
or_id (some m) id = m

pub is_text_iff : (m : Text) (o : Option Text) → (is_text m o ≡ true) ↔ (o ≡ some m)
is_text_iff m none = ground arith
is_text_iff m (some t) = ground (arith, text_eq_iff t m)
