-- ===== src/Redis/Lists.antt =====
-- How often a value stands in a list, and what LREM with count 1 and RPUSH do to that.
use go_task_engine.Prelude.{ℕ, suc, ◌+◌, ◌-◌, ◌≡◌, List, [], ◌∷◌, ◌++◌, arith, if◌then◌else◌}
use go_task_engine.Prelude.Text.{Text, text_eq, text_eq_iff}
use go_task_engine.Redis.Keyspace.{remove_one}

unfoldable pub count : Text → List Text → ℕ
count j [] = 0
count j (x ∷ l) = if text_eq x j then suc (count j l) else count j l

pub count-remove_one :
    (j m : Text) (l : List Text)
    → count j (remove_one m l) ≡ (if text_eq m j then count j l - 1 else count j l)
unfolding count remove_one
count-remove_one j m [] = ground arith
count-remove_one j m (x ∷ l) =
    ground (arith, count-remove_one j m l, text_eq_iff x m, text_eq_iff x j, text_eq_iff m j)

pub count-append :
    (j m : Text) (l : List Text)
    → count j (l ++ m ∷ []) ≡ count j l + (if text_eq m j then 1 else 0)
unfolding count
count-append j m [] = ground arith
count-append j m (x ∷ l) = ground (arith, count-append j m l)

pub count-cons :
    (j m : Text) (l : List Text) → count j (m ∷ l) ≡ count j l + (if text_eq m j then 1 else 0)
unfolding count
count-cons j m l = ground arith
