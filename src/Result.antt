-- ===== src/Result.antt =====
-- Go's pairs of a value and an error.
use go_task_engine.Prelude.{String}
use go_task_engine.Errors.{Error}

pub data Result {ℓ} (A : Type ℓ) : Type ℓ where
  ok : A → Result A
  err : Error → Result A

infixl 5 ◌>>=◌
abbrev pub ◌>>=◌ {ℓ κ} : {A : Type ℓ} {B : Type κ} → Result A → (A → Result B) → Result B
ok a >>= f = f a
err e >>= f = err e

-- fmt.Errorf("what: %w", err)
abbrev pub in_context {ℓ} : {A : Type ℓ} → String → Result A → Result A
in_context what (ok a) = ok a
in_context what (err e) = err (Error.wrap what e)
