-- ===== src/Controller/Server.antt =====
-- The API server as the controllers see it. The state of a run is the list of the calls made so
-- far, and each answer of the server may depend on all of them, so any behaviour of the server and
-- of its other clients is covered. A handler is a computation that makes calls and may fail.
pub mod Effects
use orb_operator.Base.{
  ℕ, String, ◌≡◌, refl, Bool, true, false, Option, none, some, List, [], ◌∷◌, ◌++◌,
}
use orb_operator.Errors.{Error, Result, ok, err, wrap}
use orb_operator.Api.{ClusterObjectSet, ClusterObjectDeployment}
use orb_operator.ApplyConfig.{ApplyConfig}
use orb_operator.Boxcutter.{BoxRef}
use orb_operator.Object.{GroupVersionKind}

-- The calls that change something, with what identifies them: a patch has the object before and
-- after it, an accessor the kinds that it is used for. `write_object` is a call of boxcutter.
pub data Call : Type 0 where
  apply_cos : ApplyConfig → String → Call
  create_cos : ApplyConfig → String → Call
  delete_cos : ClusterObjectSet → Call
  update_cos_status : ClusterObjectSet → Call
  update_cod_status : ClusterObjectDeployment → Call
  patch_cos : ClusterObjectSet → ClusterObjectSet → Call
  get_accessor : ClusterObjectSet → List GroupVersionKind → Call
  free_accessor : ClusterObjectSet → Call
  write_object : BoxRef → Call

abbrev pub History : Type 0
History = List Call

-- The error with which a call is answered, `none` for success.
abbrev pub Server : Type 0
Server = History → Call → Option Error

abbrev pub M : Type 0 → Type 0
M A = History → Result A × History

infixl 5 ◌>>=◌ ◌>>◌
-- The second step runs only if the first does not fail.
abbrev pub ◌>>=◌ : {Value Next : Type 0} → M Value → (Value → M Next) → M Next
◌>>=◌ step continue calls =
    let (result, more) = step calls in
    elim result [ ok value ↦ continue value more | err e ↦ (err e, more) ]

abbrev pub ◌>>◌ : {Next : Type 0} → M (Unit {0}) → M Next → M Next
step >> then_do = step >>= λ _. then_do

abbrev pub return : {Value : Type 0} → Value → M Value
return value calls = (ok value, calls)

abbrev pub lift : {Value : Type 0} → Result Value → M Value
lift result calls = (result, calls)

unfoldable pub answer : Option Error → Result (Unit {0})
answer none = ok tt
answer (some e) = err e

-- Make a call: it is in the history whether or not it succeeds.
unfoldable pub perform : Server → Call → M (Unit {0})
unfolding answer
perform server c h = (answer (server h c), h ++ (c ∷ []))

-- `fmt.Errorf("…: %w", err)` round a failed step.
unfoldable pub wrap_result : {A : Type 0} → String → Result A → Result A
wrap_result text (ok a) = ok a
wrap_result text (err e) = err (wrap text e)

unfoldable pub wrapping : {A : Type 0} → String → M A → M A
unfolding wrap_result
wrapping text m h = let (r, h') = m h in (wrap_result text r, h')
