-- ===== src/Controller/Apply.antt =====
-- `Apply` of internal/cosutil/apply.go.
use orb_operator.Base.{String, Bool, true, false, if◌then◌else◌}
use orb_operator.Errors.{Result}
use orb_operator.Api.{ClusterObjectSet}
use orb_operator.ApplyConfig.{ApplyConfig}
use orb_operator.Controller.Server.{
  apply_cos, Server, M, ◌>>=◌, ◌>>◌, return, lift, perform, wrapping,
}

-- `ExtractClusterObjectSet` reads the managed fields by a Kubernetes library.
abbrev pub Extract : Type 0
Extract = ClusterObjectSet → String → Result ApplyConfig

unfoldable pub apply :
    Server
    → Extract
    → ClusterObjectSet
    → String
    → (ClusterObjectSet → Bool)
    → (ApplyConfig → ApplyConfig)
    → M Bool
unfolding perform wrapping
apply server extract cos field_owner needs_apply mutate =
    if needs_apply cos then mutated else return false
  where
    mutated : M Bool
    mutated = do
      ac ← wrapping "extracting apply config: " (lift (extract cos field_owner))
      perform server (apply_cos (mutate ac) field_owner)
      return true
