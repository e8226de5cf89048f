-- ===== src/Api/Rules.antt =====
-- The rules of the resource definition of ClusterObjectSet on the status as a whole and on the time of
-- a phase (`XValidation` markers in api/v1alpha1/types_clusterobjectset.go).
use orb_operator.Base.{String, ◌≢◌, ℕ, ◌+◌, ◌≡◌, Option, none, some, List, [], ◌∷◌, map, All}
use orb_operator.Base.Int.{i64}
use orb_operator.Api.Meta.{Time}
use orb_operator.Api.Set.{ObjectCounts, ObservedPhase, ClusterObjectSetStatus}

-- `!has(old.completedAt) || (has(self.completedAt) && self.completedAt == old.completedAt)`
abbrev pub IsSetOnce : Option Time → Option Time → Type 0
IsSetOnce none new = Unit
IsSetOnce (some t) new = new ≡ some t

-- The rule of `ObservedPhase`: elements of the two lists correspond by name.
abbrev pub ArePhasesSetOnce : List ObservedPhase → List ObservedPhase → Type 0
ArePhasesSetOnce old new =
    All (λ p. All (λ q. p.name ≡ q.name → IsSetOnce p.completed_at q.completed_at) new) old

-- A sum of `int64` values.
abbrev pub sum : List ℕ → ℕ
sum [] = 0
sum (x ∷ xs) = x + sum xs

-- The counts are there if and only if there are observed phases, and are then the sums.
abbrev pub AreCountsSums : Option ObjectCounts → List ObservedPhase → Type 0
AreCountsSums counts [] = counts ≡ none
AreCountsSums counts (p ∷ ps) =
    counts
    ≡ some (record {
      total = i64 (sum (map (λ q. q.object_counts.total) (p ∷ ps)));
      present = i64 (sum (map (λ q. q.object_counts.present) (p ∷ ps)));
      synced = i64 (sum (map (λ q. q.object_counts.synced) (p ∷ ps)));
      available = i64 (sum (map (λ q. q.object_counts.available) (p ∷ ps)));
    })

-- `!has(old.resolvedContentHash) || (has(self.resolvedContentHash) && …)`, where an empty hash is
-- left out.
abbrev pub IsHashSetOnce : String → String → Type 0
IsHashSetOnce old new = old ≢ "" → new ≡ old

-- What the CEL rules on the status as a whole, and that on the time of a phase, ask of a new status:
-- what was set stays, and the counts are the sums. The limits on lengths and on numbers of items,
-- and the pattern of a phase's name, are not among these rules.
pub record IsAllowedChange (old new : ClusterObjectSetStatus) : Type 0 where
  pub completed_at : IsSetOnce old.completed_at new.completed_at
  pub resolved_content_hash : IsHashSetOnce old.resolved_content_hash new.resolved_content_hash
  pub counts : AreCountsSums new.object_counts new.observed_phases
  pub phases : ArePhasesSetOnce old.observed_phases new.observed_phases
