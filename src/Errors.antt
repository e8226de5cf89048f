-- ===== src/Errors.antt =====
-- Go errors as the operator builds them, and internal/errors/errors.go.
pub mod Steps
use orb_operator.Base.{String, ◌<>◌, Bool, true, false}

-- `text` is an error of `errors.New`, of `fmt.Errorf` with no `%w`, or of a callee outside the
-- repository. `wrap` is `fmt.Errorf` with its `%w` last, `join` is `errors.Join` of two errors.
pub data Error : Type 0 where
  text : String → Error
  wrap : String → Error → Error
  join : Error → Error → Error
  object_resolution_error : Error → Error
  internal_error : Error → Error

-- The two types of the package that `errors.As` looks for.
pub data Target : Type 0 where
  resolution internal : Target

-- `err.Error()`
unfoldable pub message : Error → String
message (text s) = s
message (wrap s e) = s <> message e
message (join e f) = message e <> "\n" <> message f
message (object_resolution_error e) = message e
message (internal_error e) = message e

-- `errors.As(err, &target)`, which walks the tree of wrapped errors.
unfoldable pub errors_as : Target → Error → Bool
errors_as t (text s) = false
errors_as t (wrap s e) = errors_as t e
errors_as t (join e f) =
    let right = errors_as t f in elim (errors_as t e) [ true ↦ true | false ↦ right ]
errors_as resolution (object_resolution_error e) = true
errors_as internal (object_resolution_error e) = errors_as internal e
errors_as resolution (internal_error e) = errors_as resolution e
errors_as internal (internal_error e) = true

-- `result, err` of which one is meant.
pub data Result {ℓ} (A : Type ℓ) : Type ℓ where
  ok : A → Result A
  err : Error → Result A

infixl 5 ◌>>=◌
abbrev pub ◌>>=◌ {ℓ κ} : {A : Type ℓ} {B : Type κ} → Result A → (A → Result B) → Result B
ok a >>= f = f a
err e >>= f = err e

-- `fmt.Errorf("…: %w", err)` round a failed step.
abbrev pub wrap_step {ℓ} : {A : Type ℓ} → String → Result A → Result A
wrap_step context (ok a) = ok a
wrap_step context (err e) = err (wrap context e)
