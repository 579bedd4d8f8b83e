-- ===== src/Server/Queues.antt =====
-- The order in which a server serves its queues.
use mathlib.Core.List.{Perm}
use mathlib.Core.List.Perm
use go_task_engine.Prelude.{
  ◌≡◌, ◌≢◌, refl, List, [], ◌∷◌, ◌++◌, if◌then◌else◌, map, All, Bool-cases, inl, inr, arith,
}
use go_task_engine.Prelude.Int.{ℤ, pos, ltb_ℤ, ◌≤ℤ◌, ◌<ℤ◌}
use go_task_engine.Prelude.Text.{Text, codes}
use go_task_engine.Server.Config.{
  insert_queue, sort_queues, positive_queues, or_default_queue, served_queues,
}

-- Every entry has at least the priority of those behind it.
abbrev pub Descending : List (Text × ℤ) → Type 0
Descending [] = Unit
Descending (q ∷ qs) = All (λ p. p.1 ≤ℤ q.1) qs × Descending qs

insert-perm : (q : Text × ℤ) (ps : List (Text × ℤ)) → Perm (insert_queue q ps) (q ∷ ps)
unfolding insert_queue
insert-perm q [] = Perm.refl _
insert-perm q (p ∷ ps) = elim (Bool-cases (ltb_ℤ q.1 p.1)) [
  | inl e ↦ rw e (Perm.trans (Perm.cons p (insert-perm q ps)) (Perm.swap q p ps))
  | inr e ↦ rw e (Perm.refl _)
]

sort-perm : (qs : List (Text × ℤ)) → Perm (sort_queues qs) qs
unfolding sort_queues
sort-perm [] = Perm.refl _
sort-perm (q ∷ qs) = Perm.trans (insert-perm q (sort_queues qs)) (Perm.cons q (sort-perm qs))

All-insert :
    (x q : Text × ℤ) (ps : List (Text × ℤ))
    → q.1 ≤ℤ x.1
    → All (λ p. p.1 ≤ℤ x.1) ps
    → All (λ p. p.1 ≤ℤ x.1) (insert_queue q ps)
unfolding insert_queue
All-insert x q [] h a = (h, tt)
All-insert x q (p ∷ ps) h a = ground (arith, All-insert x q ps h a.1)

All-le :
    (x y : Text × ℤ) (ps : List (Text × ℤ))
    → x.1 ≤ℤ y.1
    → All (λ p. p.1 ≤ℤ x.1) ps
    → All (λ p. p.1 ≤ℤ y.1) ps
All-le x y [] h a = tt
All-le x y (p ∷ ps) h a = (omega (arith, a.0), All-le x y ps h a.1)

insert-Descending :
    (q : Text × ℤ) (ps : List (Text × ℤ)) → Descending ps → Descending (insert_queue q ps)
unfolding insert_queue
insert-Descending q [] d = (tt, tt)
insert-Descending q (p ∷ ps) d = elim (Bool-cases (ltb_ℤ q.1 p.1)) [
  | inl e ↦ rw e (All-insert p q ps (ground arith) d.0, insert-Descending q ps d.1)
  | inr e ↦ let below : p.1 ≤ℤ q.1 = ground arith in rw e ((below, All-le p q ps below d.0), d)
]

sort-Descending : (qs : List (Text × ℤ)) → Descending (sort_queues qs)
unfolding sort_queues
sort-Descending [] = tt
sort-Descending (q ∷ qs) = insert-Descending q (sort_queues qs) (sort-Descending qs)

-- What New makes of the configured queues, as the entries that it serves.
pub record Served (qs : List (Text × ℤ)) (names : List Text) : Type 0 where
  pub entries : List (Text × ℤ)
  pub descending : Descending entries
  pub left_out : List (Text × ℤ)
  pub same : Perm qs (entries ++ left_out)
  pub positive : All (λ p. pos 0 <ℤ p.1) entries
  pub not_positive : All (λ p. p.1 ≤ℤ pos 0) left_out
  pub named : entries ≢ [] → names ≡ map (λ q. q.0) entries
  pub default : entries ≡ [] → names ≡ codes "default" ∷ []

-- The entries that are not of a positive priority.
abbrev others : List (Text × ℤ) → List (Text × ℤ)
others [] = []
others (q ∷ qs) = if ltb_ℤ (pos 0) q.1 then others qs else q ∷ others qs

others-All : (qs : List (Text × ℤ)) → All (λ p. p.1 ≤ℤ pos 0) (others qs)
others-All [] = tt
others-All (q ∷ qs) = ground (arith, others-All qs)

perm-middle : (q : Text × ℤ) (xs ys : List (Text × ℤ)) → Perm (q ∷ xs ++ ys) (xs ++ q ∷ ys)
perm-middle q [] ys = Perm.refl _
perm-middle q (x ∷ xs) ys =
    Perm.trans (Perm.swap x q (xs ++ ys)) (Perm.cons x (perm-middle q xs ys))

positive-perm : (qs : List (Text × ℤ)) → Perm qs (positive_queues qs ++ others qs)
unfolding positive_queues
positive-perm [] = Perm.refl _
positive-perm (q ∷ qs) = elim (Bool-cases (ltb_ℤ (pos 0) q.1)) [
  | inl e ↦ rw e (Perm.cons q (positive-perm qs))
  | inr e ↦
      rw e (
        Perm.trans (Perm.cons q (positive-perm qs))
          (perm-middle q (positive_queues qs) (others qs)))
]

default-named :
    (es : List (Text × ℤ)) → es ≢ [] → or_default_queue (map (λ q. q.0) es) ≡ map (λ q. q.0) es
default-named [] h = absurd (h refl)
default-named (e ∷ es) h = refl

positive-All : (qs : List (Text × ℤ)) → All (λ p. pos 0 <ℤ p.1) (positive_queues qs)
unfolding positive_queues
positive-All [] = tt
positive-All (q ∷ qs) = ground (arith, positive-All qs)

insert-positive :
    (q : Text × ℤ) (ps : List (Text × ℤ))
    → pos 0 <ℤ q.1
    → All (λ p. pos 0 <ℤ p.1) ps
    → All (λ p. pos 0 <ℤ p.1) (insert_queue q ps)
unfolding insert_queue
insert-positive q [] h a = (h, tt)
insert-positive q (p ∷ ps) h a = ground (arith, insert-positive q ps h a.1)

sort-positive :
    (qs : List (Text × ℤ)) → All (λ p. pos 0 <ℤ p.1) qs → All (λ p. pos 0 <ℤ p.1) (sort_queues qs)
unfolding sort_queues
sort-positive [] a = tt
sort-positive (q ∷ qs) a = insert-positive q (sort_queues qs) a.0 (sort-positive qs a.1)

-- A server serves exactly the configured queues of a positive priority, each once for each entry, the
-- queues of a higher priority before those of a lower; without any it serves the queue "default".
pub served_queues-Served : (qs : List (Text × ℤ)) → Served qs (served_queues qs)
unfolding served_queues
served_queues-Served qs = record {
  entries = sort_queues (positive_queues qs);
  descending = sort-Descending (positive_queues qs);
  left_out = others qs;
  same =
      Perm.trans (positive-perm qs)
        (Perm.append_right (others qs) (Perm.symm (sort-perm (positive_queues qs))));
  positive = sort-positive (positive_queues qs) (positive-All qs);
  not_positive = others-All qs;
  named = default-named (sort_queues (positive_queues qs));
  default = λ e. rw e refl;
}
