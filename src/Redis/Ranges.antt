-- ===== src/Redis/Ranges.antt =====
-- What ZRANGEBYSCORE lists.
use go_task_engine.Prelude.{◌≡◌, Bool, true, false, ◌||◌, some, List, [], ◌∷◌, arith}
use go_task_engine.Prelude.Int.{ℤ, ◌≤ℤ◌}
use go_task_engine.Prelude.Text.{Text, text_eq}
use go_task_engine.Redis.Keyspace.{Entry, zscore, zdelete, score_range}

-- Whether a text is in a list.
abbrev pub has : Text → List Text → Bool
has t [] = false
has t (x ∷ xs) = text_eq x t || has t xs

pub has-zdelete :
    (s : ℤ) (m j : Text) (l : List Entry)
    → has j (score_range s (zdelete m l)) ≡ true
    → has j (score_range s l) ≡ true
unfolding score_range zdelete
has-zdelete s m j [] h = h
has-zdelete s m j (x ∷ l) h = ground (arith, has-zdelete s m j l)

pub has-score_range :
    (s t : ℤ) (j : Text) (l : List Entry)
    → zscore j l ≡ some t
    → t ≤ℤ s
    → has j (score_range s l) ≡ true
unfolding zscore score_range
has-score_range s t j [] h k = ground arith
has-score_range s t j (x ∷ l) h k = ground (arith, has-score_range s t j l)
