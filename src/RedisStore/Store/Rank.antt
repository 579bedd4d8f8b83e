-- ===== src/RedisStore/Store/Rank.antt =====
-- How taskRank orders the tasks of a queue.
use go_task_engine.Prelude.{ℕ, ◌+◌, ◌*◌, ◌^◌, ◌≤◌, ◌<◌, ◌≡◌, ◌↔◌, ◌⊎◌, ap₂, ◌∙◌, arith}
use go_task_engine.Prelude.Int.{ℤ, pos, ◌-ℤ◌, ◌+ℤ◌, ◌<ℤ◌}
use go_task_engine.Float.{Float64, IsExact, scale}
use go_task_engine.Model.{TaskMessage, unix_milli}
use go_task_engine.RedisStore.Store.Intake.{task_rank}

scaled : (p : ℕ) → scale (10 ^ 15) (pos 0 -ℤ pos p) ≡ pos 0 -ℤ pos (p * 10 ^ 15)
unfolding scale ◌-ℤ◌
scaled p = ground arith

sum-eq : (p t : ℕ) → (pos 0 -ℤ pos p) +ℤ pos t ≡ pos t -ℤ pos p
unfolding ◌-ℤ◌ ◌+ℤ◌
sum-eq p t = ground arith

small-IsExact : (p t : ℕ) → p ≤ 2 ^ 53 → t ≤ 2 ^ 53 → IsExact (pos t -ℤ pos p)
unfolding ◌-ℤ◌
small-IsExact p t h k = ground arith

sub-lt : (a b c d : ℕ) → (pos a -ℤ pos b <ℤ pos c -ℤ pos d) ↔ (a + d < c + b)
unfolding ◌-ℤ◌
sub-lt a b c d = ground arith

-- taskRank on the priority and the milliseconds.
abbrev rank_of : Float64 → ℤ → ℤ → ℤ
rank_of f p t = f.round (f.round (scale (10 ^ 15) (pos 0 -ℤ f.round p)) +ℤ f.round t)

rank_of-eq :
    (f : Float64) (p t : ℕ)
    → p ≤ 9
    → t < 10 ^ 15
    → rank_of f (pos p) (pos t) ≡ pos t -ℤ pos (p * 10 ^ 15)
rank_of-eq f p t h k =
    rw
      (
        rank_of,
        f.round-eq_self (pos p) (omega arith),
        f.round-eq_self (pos t) (omega arith),
        scaled p,
        f.round-eq_self (pos 0 -ℤ pos (p * 10 ^ 15))
            (small-IsExact (p * 10 ^ 15) 0 (omega arith) (omega arith)),
        sum-eq (p * 10 ^ 15) t,
      )
      (f.round-eq_self (pos t -ℤ pos (p * 10 ^ 15))
        (small-IsExact (p * 10 ^ 15) t (omega arith) (omega arith)))

task_rank-eq :
    (f : Float64) (m : TaskMessage) (p t : ℕ)
    → m.priority ≡ pos p
    → unix_milli m.created_at ≡ pos t
    → p ≤ 9
    → t < 10 ^ 15
    → task_rank f m ≡ pos t -ℤ pos (p * 10 ^ 15)
unfolding task_rank
task_rank-eq f m p t e e' h k = ap₂ (rank_of f) e e' ∙ rank_of-eq f p t h k

-- For priorities up to 9 and times from 1970 until 10 ^ 15 milliseconds later, a task comes before
-- another by taskRank exactly when its priority is higher, or the same with an earlier millisecond
-- of creation.
pub task_rank-lt_iff :
    (f : Float64) (m n : TaskMessage) (p q t u : ℕ)
    → m.priority ≡ pos p
    → n.priority ≡ pos q
    → unix_milli m.created_at ≡ pos t
    → unix_milli n.created_at ≡ pos u
    → p ≤ 9
    → q ≤ 9
    → t < 10 ^ 15
    → u < 10 ^ 15
    → (task_rank f m <ℤ task_rank f n) ↔ ((q < p) ⊎ ((p ≡ q) × (t < u)))
task_rank-lt_iff f m n p q t u e e' g g' h h' k k' =
    rw (task_rank-eq f m p t e g h k, task_rank-eq f n q u e' g' h' k')
      (ground (arith, sub-lt t (p * 10 ^ 15) u (q * 10 ^ 15)))
