-- ===== src/Assertions.antt =====
-- internal/assertions/probes.go. The probes are boxcutter's: each is kept as the values that it is
-- made of, and a compiled CEL program is of a type that is a parameter.
pub mod Guards
use orb_operator.Base.{
  ℕ, zero, suc, ◌+◌, String, ◌<>◌, Option, none, some, List, [], ◌∷◌, ◌==◌, String_eq,
  if◌then◌else◌,
}
use orb_operator.Errors.{Error, text, wrap, Result, ok, err}
use orb_operator.Api.{
  Assertion, ConditionEqualAssertion, FieldsEqualAssertion, FieldValueAssertion,
  CelExpressionAssertion,
}
use orb_operator.Template.{decimal}

-- What one assertion becomes.
pub data Probe {ℓ} (Cel : Type ℓ) : Type ℓ where
  condition_probe : String → String → Probe Cel
  fields_equal_probe : String → String → Probe Cel
  field_value_probe : String → String → Probe Cel
  cel_probe : Cel → Probe Cel

-- A single probe, or `probing.And` of several.
pub data Combined {ℓ} (Cel : Type ℓ) : Type ℓ where
  one : Probe Cel → Combined Cel
  and : List (Probe Cel) → Combined Cel

-- `probing.ObservedGenerationProbe`, or a `boxcutter.ProbeFunc` that is false with a message.
pub data Prober {ℓ} (Cel : Type ℓ) : Type ℓ where
  observed_generation : Combined Cel → Prober Cel
  always_false : String → Prober Cel

-- `probing.NewCELProbe` of an expression and a message.
module _ {ℓ} {Cel : Type ℓ} (new_cel_probe : String → String → Result Cel) where
  cel_result : Result Cel → Result (Probe Cel)
  cel_result (ok c) = ok (cel_probe c)
  cel_result (err e) = err e

  cel_message : CelExpressionAssertion → String
  cel_message c =
      if c.message == "" then "waiting for CEL expression to pass: " <> c.expression else c.message

  -- The `switch`, whose first case that applies is taken.
  probe_for :
      Option ConditionEqualAssertion
      → Option FieldsEqualAssertion
      → Option FieldValueAssertion
      → Option CelExpressionAssertion
      → Result (Probe Cel)
  unfolding cel_result cel_message
  probe_for (some c) f v x = ok (condition_probe c.type c.status)
  probe_for none (some f) v x = ok (fields_equal_probe f.field_a f.field_b)
  probe_for none none (some v) x = ok (field_value_probe v.field_path v.value)
  probe_for none none none (some x) = cel_result (new_cel_probe x.expression (cel_message x))
  probe_for none none none none = err (text "assertion has no recognized type set")

  unfoldable pub probe_for_assertion : Assertion → Result (Probe Cel)
  unfolding probe_for
  probe_for_assertion a = probe_for a.condition_equal a.fields_equal a.field_value a.cel_expression

  unfoldable add_probe :
      ℕ → Result (Probe Cel) → Result (List (Probe Cel)) → Result (List (Probe Cel))
  unfolding decimal
  add_probe i (err e) rest = err (wrap ("assertion[" <> decimal i <> "]: ") e)
  add_probe i (ok p) (err e) = err e
  add_probe i (ok p) (ok ps) = ok (p ∷ ps)

  -- The loop, from index `i` on.
  unfoldable pub probers_from : ℕ → List Assertion → Result (List (Probe Cel))
  unfolding probe_for_assertion add_probe
  probers_from i [] = ok []
  probers_from i (a ∷ as') = add_probe i (probe_for_assertion a) (probers_from (i + 1) as')

  unfoldable combine : Result (List (Probe Cel)) → Result (Option (Prober Cel))
  combine (err e) = err e
  combine (ok []) = ok none
  combine (ok (p ∷ [])) = ok (some (observed_generation (one p)))
  combine (ok (p ∷ q ∷ ps)) = ok (some (observed_generation (and (p ∷ q ∷ ps))))

  -- `none` is a nil prober.
  unfoldable pub probe_for_assertions : List Assertion → Result (Option (Prober Cel))
  unfolding probers_from combine
  probe_for_assertions assertions = combine (probers_from 0 assertions)
