-- ===== src/Redis/SortedSets.antt =====
-- What ZADD and ZREM do to the score of each member.
use go_task_engine.Prelude.{◌≡◌, none, some, List, [], ◌∷◌, arith, if◌then◌else◌}
use go_task_engine.Prelude.Int.{ℤ}
use go_task_engine.Prelude.Text.{Text, text_eq, text_eq_iff, text_eq_refl}
use go_task_engine.Redis.Keyspace.{Entry, zscore, place, zdelete, zinsert}

pub zscore-zdelete :
    (j m : Text) (l : List Entry)
    → zscore j (zdelete m l) ≡ (if text_eq m j then none else zscore j l)
unfolding zscore zdelete
zscore-zdelete j m [] = ground arith
zscore-zdelete j m (x ∷ l) =
    ground
      (arith, zscore-zdelete j m l, text_eq_iff x.member m, text_eq_iff x.member j, text_eq_iff m j)

zscore-place :
    (j : Text) (x : Entry) (l : List Entry)
    → zscore x.member l ≡ none
    → zscore j (place x l) ≡ (if text_eq x.member j then some x.score else zscore j l)
unfolding zscore place
zscore-place j x [] h = ground arith
zscore-place j x (y ∷ l) h = ground (
  arith,
  zscore-place j x l,
  text_eq_iff y.member x.member,
  text_eq_iff y.member j,
  text_eq_iff x.member j,
)

pub zscore-zinsert :
    (j : Text) (s : ℤ) (m : Text) (l : List Entry)
    → zscore j (zinsert s m l) ≡ (if text_eq m j then some s else zscore j l)
unfolding zinsert
zscore-zinsert j s m l = ground (
  arith,
  zscore-place j (record { score = s; member = m }) (zdelete m l),
  zscore-zdelete m m l,
  zscore-zdelete j m l,
  text_eq_refl m,
)
