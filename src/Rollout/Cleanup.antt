-- ===== src/Rollout/Cleanup.antt =====
-- What the example does to the cluster: `cleanup`, and the action of a step, of
-- examples/gated-rollout/main.go.
use orb_operator.Base.{
  ℕ, zero, suc, ◌+◌, ◌<◌, ◌≤◌, ◌≡◌, refl, String, String_eq, ◌==◌, Bool, true, false, Option, none,
  some, List, [], ◌∷◌, Map, insert, if-elim, if◌then◌else◌, arith,
}
use orb_operator.Errors.{Error, Result, ok, err}
use orb_operator.Api.{ClusterObjectSet, ClusterObjectDeploymentSpec}
use orb_operator.Rollout.{Action, create_v1, update_v2, patch}
use orb_operator.Rollout.Objects.{cod_name, MarshalConfigMap, build_cod_v1, build_cod_v2}

unfoldable pub any_in_group : List ClusterObjectSet → Bool
any_in_group [] = false
any_in_group (item ∷ items) = if item.spec.group == cod_name then true else any_in_group items

-- The loop that lists the revisions until none is of the group; `list` answers each attempt. `none`
-- is where the fuel ends.
unfoldable pub wait_until_gone :
    (ℕ → Result (List ClusterObjectSet)) → ℕ → ℕ → Option (Option Error)
unfolding any_in_group
wait_until_gone list zero attempt = none
wait_until_gone list (suc fuel) attempt =
    let rest = wait_until_gone list fuel (attempt + 1) in
    elim (list attempt) [
      | err e ↦ some (some e)
      | ok items ↦ if any_in_group items then rest else some none
    ]

-- `cleanup`: the deletion of the deployment, whose error is given but for one that it is not found,
-- and the wait.
unfoldable pub cleanup :
    Option Error → (ℕ → Result (List ClusterObjectSet)) → ℕ → Option (Option Error)
unfolding wait_until_gone
cleanup (some e) list fuel = some (some e)
cleanup none list fuel = wait_until_gone list fuel 0

-- `patchAction`, `buildCODv1` and `buildCODv2` against the cluster: config maps are their data.
pub record Client (W : Type 0) : Type 0 where
  pub create : ClusterObjectDeploymentSpec → W → Option Error × W
  pub get_spec : W → Result ClusterObjectDeploymentSpec
  pub update_spec : ClusterObjectDeploymentSpec → W → Option Error × W
  pub get_config_map : String → W → Result (Option (Map String String))
  pub patch_config_map : String → Map String String → W → Option Error × W

-- `cm.Data[key] = value`, in a new map if there is none.
abbrev with_datum : String → String → Option (Map String String) → Map String String
with_datum key value none = insert key value []
with_datum key value (some m) = insert key value m

module _ {W : Type 0} (c : Client W) (marshal : MarshalConfigMap) where
  unfoldable pub patch_action : String → String → String → W → Option Error × W
  patch_action name key value w = elim (c.get_config_map name w) [
    | err e ↦ (some e, w)
    | ok m ↦ c.patch_config_map name (with_datum key value m) w
  ]

  -- The action of a step.
  unfoldable pub run_action : Action → W → Option Error × W
  unfolding patch_action build_cod_v1 build_cod_v2
  run_action create_v1 w = c.create (build_cod_v1 marshal) w
  run_action update_v2 w = elim (c.get_spec w) [
    | err e ↦ (some e, w)
    | ok _ ↦ c.update_spec (build_cod_v2 marshal) w
  ]
  run_action (patch name key value) w = patch_action name key value w

-- The attempts up to this one all list revisions, and this one none of the group.
pub record GoneAt (list : ℕ → Result (List ClusterObjectSet)) (n : ℕ) : Type 0 where
  pub items : ℕ → List ClusterObjectSet
  pub listed : (k : ℕ) → k ≤ n → list k ≡ ok (items k)
  pub gone : any_in_group (items n) ≡ false

wait_until_gone-ends :
    (list : ℕ → Result (List ClusterObjectSet)) (n more attempt fuel : ℕ)
    → GoneAt list n
    → attempt + more ≡ n
    → more < fuel
    → wait_until_gone list fuel attempt ≡ some none
unfolding wait_until_gone
wait_until_gone-ends list n more attempt zero g e h = absurd (omega arith)
wait_until_gone-ends list n zero attempt (suc fuel) g e h =
    let here : attempt ≡ n = omega arith in
    rw (here, wait_until_gone, g.listed n (omega arith), g.gone) refl
wait_until_gone-ends list n (suc more) attempt (suc fuel) g e h =
    rw (wait_until_gone, g.listed attempt (omega arith))
      (if-elim (λ o. o ≡ some none) (any_in_group (g.items attempt)) _ _
        (λ _. wait_until_gone-ends list n more (attempt + 1) fuel g (omega arith) (omega arith))
        (λ _. refl))

-- Once the deployment is deleted and the first `n` lists of revisions are answered, of which the
-- last has none of the group, the cleanup ends without an error after at most `n + 1` lists.
pub cleanup_ends :
    (list : ℕ → Result (List ClusterObjectSet)) (n fuel : ℕ)
    → GoneAt list n
    → n < fuel
    → cleanup none list fuel ≡ some none
unfolding cleanup
cleanup_ends list n fuel g h = wait_until_gone-ends list n n 0 fuel g (omega arith) h
