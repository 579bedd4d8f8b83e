-- ===== src/Float.antt =====
-- The float64 arithmetic of taskRank. Its values are integers, so a float is the integer it stands
-- for, and what the hardware contributes is the rounding: a parameter, with the two facts of IEEE 754
-- that the code relies on.
use go_task_engine.Prelude.{ℕ, suc, ◌+◌, ◌*◌, ◌^◌, ◌≤◌, ◌≡◌, refl}
use go_task_engine.Prelude.Int.{ℤ, pos, negsuc, pos_part, neg_part, ◌-ℤ◌, ◌≤ℤ◌}

-- Integers of a magnitude that float64 holds exactly.
abbrev pub IsExact : ℤ → Type 0
IsExact a = pos_part a + neg_part a ≤ 2 ^ 53

pub record Float64 : Type 0 where
  pub round : ℤ → ℤ
  pub round_mono : (a b : ℤ) → a ≤ℤ b → round a ≤ℤ round b
  pub round-eq_self : (a : ℤ) → IsExact a → round a ≡ a

-- Rounding that never has to round, as for small magnitudes.
abbrev pub unrounded : Float64
unrounded = record { round = λ a. a; round_mono = λ a b h. h; round-eq_self = λ a h. refl }

-- The product of an integer and a positive constant.
unfoldable pub scale : ℕ → ℤ → ℤ
scale k (pos n) = pos (n * k)
scale k (negsuc n) = pos 0 -ℤ pos (suc n * k)
