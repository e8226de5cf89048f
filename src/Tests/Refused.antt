-- ===== src/Tests/Refused.antt =====
-- Runs of the controller of revisions that are refused: another content, or no accessor.
use orb_operator.Base.{
  ℕ, String, String_eq, Bool, true, false, none, some, List, [], ◌∷◌, ◌≡◌, refl,
}
use orb_operator.Errors.{ok, err, text, wrap, errors_as, resolution}
use orb_operator.Api.{ClusterObjectSet, active}
use orb_operator.Object.{ObjectIdentity, Resolved}
use orb_operator.Object.Resolver.{resolve}
use orb_operator.Controller.Cos.Env.{Env}
use orb_operator.Controller.Cos.Handler.Substituted.{IsRefused, do_reconcile-IsRefused}
use orb_operator.Controller.Cos.Prepare.{resolve_verified, new_engine, pin}
use orb_operator.Controller.Cos.Handler.Unopened.{Forgets, do_reconcile-Forgets}
use orb_operator.Tests.Objects.{lib}
use orb_operator.Tests.Handler.{env}
use orb_operator.Tests.Fixtures.{cos, names_differ}

-- An active revision whose objects had another content.
abbrev substituted : ClusterObjectSet
substituted =
    let c = cos "app-2" 2 active [] in
    record c { status = record c.status { resolved_content_hash = "0a0a" } }

abbrev no_objects : Resolved ObjectIdentity
no_objects = record {
  phases =
      record { name = "crds"; collision_protection = none; objects = [] }
      ∷ record { name = "deploy"; collision_protection = none; objects = [] }
      ∷ [];
  hash = "";
}

substituted-resolved : resolve lib ((env true).get_slice []) substituted.spec.phases ≡ ok no_objects
unfolding resolve
substituted-resolved = refl

do_reconcile-IsRefused_example : IsRefused (env true) substituted [] [] 100
do_reconcile-IsRefused_example =
    do_reconcile-IsRefused (env true) substituted [] [] 100 no_objects (names_differ "0a0a" "" refl)
      (names_differ "0a0a" "" refl) substituted-resolved

-- The accessor is refused.
abbrev refusing : Env ObjectIdentity (List ℕ) String Bool Bool
refusing = record (env true) { server = λ h call. some (text "forbidden") }

abbrev fresh : ClusterObjectSet
fresh = cos "app-2" 2 active []

fresh-verified : resolve_verified refusing fresh [] ≡ ok no_objects
unfolding resolve_verified
fresh-verified = refl

fresh-refused :
    (new_engine refusing (pin "" fresh) no_objects []).0
    ≡ err (wrap "getting accessor: " (text "forbidden"))
unfolding new_engine
fresh-refused = refl

accessor-is_not_resolution :
    errors_as resolution (wrap "getting accessor: " (text "forbidden")) ≡ false
unfolding errors_as
accessor-is_not_resolution = refl

do_reconcile-Forgets_example : Forgets refusing fresh [] [] 100
do_reconcile-Forgets_example =
    do_reconcile-Forgets refusing fresh [] [] 100 no_objects
      (wrap "getting accessor: " (text "forbidden")) fresh-verified fresh-refused
      accessor-is_not_resolution
