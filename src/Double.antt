-- ===== src/Double.antt =====
-- float64 as the server and the limiter use it: constants, comparisons and arithmetic of the hardware,
-- a parameter. A comparison with NaN is false.
use go_task_engine.Prelude.{suc, ◌*◌, ◌/◌, Bool, false}
use go_task_engine.Prelude.Int.{ℤ, pos, negsuc, ltb_ℤ, leb_ℤ, ◌+ℤ◌, ◌-ℤ◌}

pub record Double (W : Type 0) : Type 0 where
  pub lt : W → W → Bool
  pub le : W → W → Bool
  pub is_nan : W → Bool
  pub is_inf : W → Bool
  -- float64(n) of an int64
  pub of_int : ℤ → W
  -- time.Duration(x) of a value in range, which drops the fraction
  pub truncate : W → ℤ
  -- math.ceil of Lua, of a value in range, as Redis writes it
  pub ceil : W → ℤ
  pub add : W → W → W
  pub sub : W → W → W
  pub mul : W → W → W
  pub div : W → W → W

abbrev pub nought : {W : Type 0} → Double W → W
nought d = d.of_int (pos 0)

abbrev pub one : {W : Type 0} → Double W → W
one d = d.of_int (pos 1)

-- Whole numbers, for runs at concrete inputs.
abbrev times : ℤ → ℤ → ℤ
times (pos a) (pos b) = pos (a * b)
times (pos a) (negsuc b) = pos 0 -ℤ pos (a * suc b)
times (negsuc a) (pos b) = pos 0 -ℤ pos (suc a * b)
times (negsuc a) (negsuc b) = pos (suc a * suc b)

abbrev over : ℤ → ℤ → ℤ
over (pos a) (pos (suc b)) = pos (a / suc b)
over a b = pos 0

abbrev pub whole : Double ℤ
whole = record {
  lt = ltb_ℤ;
  le = leb_ℤ;
  is_nan = λ a. false;
  is_inf = λ a. false;
  of_int = λ a. a;
  truncate = λ a. a;
  ceil = λ a. a;
  add = λ a b. a +ℤ b;
  sub = λ a b. a -ℤ b;
  mul = times;
  div = over;
}
