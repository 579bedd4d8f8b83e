-- ===== src/Redis/Order.antt =====
-- Sorted sets stay ordered by score, then by member.
use go_task_engine.Prelude.{◌≡◌, true, false, List, [], ◌∷◌, arith, All, Bool-cases, inl, inr}
use go_task_engine.Prelude.Int.{ℤ}
use go_task_engine.Prelude.Text.{Text, text_eq, text_lt_irrefl, text_lt_trans}
use go_task_engine.Redis.Keyspace.{Entry, entry_lt, place, zdelete, zinsert}

entry_lt_trans : (x y z : Entry) → entry_lt x y ≡ true → entry_lt y z ≡ true → entry_lt x z ≡ true
unfolding entry_lt
entry_lt_trans x y z h k = ground (arith, text_lt_trans x.member y.member z.member)

entry_lt_irrefl : (x : Entry) → entry_lt x x ≡ false
unfolding entry_lt
entry_lt_irrefl x = ground (arith, text_lt_irrefl x.member)

-- No entry of the list comes before this one.
abbrev pub First : Entry → List Entry → Type 0
First x l = All (λ y. entry_lt y x ≡ false) l

pub data IsAscending : List Entry → Type 0 where
  nil : IsAscending []
  cons : {x : Entry} {l : List Entry} → First x l → IsAscending l → IsAscending (x ∷ l)

First-trans : (x y : Entry) (l : List Entry) → entry_lt x y ≡ true → First y l → First x l
First-trans x y [] h f = tt
First-trans x y (z ∷ l) h f = (ground (arith, entry_lt_trans z x y), First-trans x y l h f.1)

First-place :
    (x y : Entry) (l : List Entry) → entry_lt x y ≡ false → First y l → First y (place x l)
unfolding place
First-place x y [] h f = (h, tt)
First-place x y (z ∷ l) h f = ground (arith, First-place x y l h f.1)

First-zdelete : (x : Entry) (m : Text) (l : List Entry) → First x l → First x (zdelete m l)
unfolding zdelete
First-zdelete x m [] f = tt
First-zdelete x m (y ∷ l) f = ground (arith, First-zdelete x m l f.1)

place-IsAscending : (x : Entry) (l : List Entry) → IsAscending l → IsAscending (place x l)
unfolding place
place-IsAscending x [] s = cons tt nil
place-IsAscending x (y ∷ l) (cons f s) = elim (Bool-cases (entry_lt x y)) [
  | inl h ↦ rw h (
      cons (ground (arith, entry_lt_trans x y x, entry_lt_irrefl x), First-trans x y l h f)
        (cons f s))
  | inr h ↦ rw h (cons (First-place x y l h f) (place-IsAscending x l s))
]

pub zdelete-IsAscending : (m : Text) (l : List Entry) → IsAscending l → IsAscending (zdelete m l)
unfolding zdelete
zdelete-IsAscending m [] s = nil
zdelete-IsAscending m (x ∷ l) (cons f s) = elim (Bool-cases (text_eq x.member m)) [
  | inl h ↦ rw h (zdelete-IsAscending m l s)
  | inr h ↦ rw h (cons (First-zdelete x m l f) (zdelete-IsAscending m l s))
]

pub zinsert-IsAscending :
    (s : ℤ) (m : Text) (l : List Entry) → IsAscending l → IsAscending (zinsert s m l)
unfolding zinsert
zinsert-IsAscending s m l a = place-IsAscending _ _ (zdelete-IsAscending m l a)

pub First-head : (x : Entry) (l : List Entry) → IsAscending (x ∷ l) → First x (x ∷ l)
First-head x l (cons f s) = (entry_lt_irrefl x, f)
