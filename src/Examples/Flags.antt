-- ===== src/Examples/Flags.antt =====
-- The package flag of the Go library, as far as the examples use it: a FlagSet with ContinueOnError,
-- whose variables are fields of a configuration. How a text is read as a number, a duration or a
-- Boolean is a parameter.
use go_task_engine.Prelude.{
  Bool, true, false, ◌||◌, Option, none, some, List, [], ◌∷◌, ◌==◌, if◌then◌else◌,
}
use go_task_engine.Prelude.Int.{ℤ}
use go_task_engine.Prelude.Text.{Text, codes}
use go_task_engine.Errors.{plain}
use go_task_engine.Result.{Result, ok, err, ◌>>=◌}

-- strconv.ParseInt, time.ParseDuration and strconv.ParseBool; `none` is an error.
pub record Readers : Type 0 where
  pub read_int : Text → Option ℤ
  pub read_duration : Text → Option ℤ
  pub read_bool : Text → Option Bool

-- A variable of one of the kinds that StringVar, DurationVar, IntVar and BoolVar bind.
pub data Variable (C : Type 0) : Type 0 where
  string_var : (Text → C → C) → Variable C
  duration_var int_var : (ℤ → C → C) → Variable C
  bool_var : (Bool → C → C) → Variable C

-- How an argument starts: `-name`, `-name=value`, or with two dashes.
pub data Token : Type 0 where
  -- the first argument that is no flag, or `--`
  halt : Token
  malformed : Token
  flag : Text → Option Text → Token

-- The name and the value at the first `=`.
unfoldable pub cut : Text → Text × Option Text
cut [] = ([], none)
cut (c ∷ cs) = if c == 61 then ([], some cs) else (c ∷ (cut cs).0, (cut cs).1)

unfoldable pub name_token : Text → Token
unfolding cut
name_token [] = malformed
name_token (c ∷ cs) =
    if c == 45 || c == 61 then malformed else flag (cut (c ∷ cs)).0 (cut (c ∷ cs)).1

unfoldable pub dashes_token : Text → Token
unfolding name_token
dashes_token [] = halt
dashes_token (c ∷ cs) = name_token (c ∷ cs)

unfoldable pub token : Text → Token
unfolding dashes_token
token [] = halt
token (c ∷ []) = halt
token (c ∷ d ∷ cs) =
    if c == 45 then (if d == 45 then dashes_token cs else name_token (d ∷ cs)) else halt

module _ {C : Type 0} (r : Readers) where
  -- Value.Set
  unfoldable pub set : Variable C → Text → C → Result C
  set (string_var put) t c = ok (put t c)
  set (duration_var put) t c = elim (r.read_duration t) [
    | none ↦ err (plain "invalid value")
    | some d ↦ ok (put d c)
  ]
  set (int_var put) t c = elim (r.read_int t) [
    | none ↦ err (plain "invalid value")
    | some n ↦ ok (put n c)
  ]
  set (bool_var put) t c = elim (r.read_bool t) [
    | none ↦ err (plain "invalid boolean value")
    | some b ↦ ok (put b c)
  ]

  -- A flag that was found, with its value and the argument behind it: what it sets, and whether it
  -- took that argument.
  unfoldable pub set_flag : Variable C → Option Text → Option Text → C → Result (C × Bool)
  unfolding set
  set_flag (bool_var put) none next c = set (bool_var put) (codes "true") c >>= λ c'. ok (c', false)
  set_flag v (some t) next c = set v t c >>= λ c'. ok (c', false)
  set_flag v none none c = err (plain "flag needs an argument")
  set_flag v none (some t) c = set v t c >>= λ c'. ok (c', true)

  unfoldable pub set_found : Option (Variable C) → Option Text → Option Text → C → Result (C × Bool)
  unfolding set_flag
  set_found none value next c = err (plain "flag provided but not defined")
  set_found (some v) value next c = set_flag v value next c

  -- (*FlagSet).Parse: the flags that are defined, the arguments, and the configuration so far.
  unfoldable pub parse : (Text → Option (Variable C)) → List Text → C → Result C
  unfolding token set_found
  parse defined [] c = ok c
  parse defined (s ∷ []) c = elim (token s) [
    | halt ↦ ok c
    | malformed ↦ err (plain "bad flag syntax")
    | flag name value ↦ set_found (defined name) value none c >>= λ p. ok p.0
  ]
  parse defined (s ∷ t ∷ rest) c = elim (token s) [
    | halt ↦ ok c
    | malformed ↦ err (plain "bad flag syntax")
    | flag name value ↦ set_found (defined name) value (some t) c >>= λ p. (elim p.1 [
      | true ↦ parse defined rest p.0
      | false ↦ parse defined (t ∷ rest) p.0
    ])
  ]
