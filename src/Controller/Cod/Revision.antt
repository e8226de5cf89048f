-- ===== src/Controller/Cod/Revision.antt =====
-- Which revision a deployment has, and the next one's number: `nextRevisionNumber`, and the choice
-- of the latest active revision in `syncRevision`.
pub mod Number
use orb_operator.Base.{
  ℕ, ◌+◌, ◌%◌, Bool, true, false, not, ◌&&◌, Option, none, some, List, [], ◌∷◌, ltb, if◌then◌else◌,
}
use orb_operator.Api.{ClusterObjectSet, is_zero, is_archived_state}

-- The loop, over the greatest revision so far.
unfoldable pub max_revision : ℕ → List ClusterObjectSet → ℕ
max_revision m [] = m
max_revision m (cos ∷ coss) =
    max_revision (if ltb m cos.spec.revision then cos.spec.revision else m) coss

-- A `uint32` wraps around.
unfoldable pub next_revision_number : List ClusterObjectSet → ℕ
unfolding max_revision
next_revision_number all_coss = (max_revision 0 all_coss + 1) % 4294967296

abbrev pub is_active : ClusterObjectSet → Bool
is_active cos =
    is_zero cos.metadata.deletion_timestamp && not (is_archived_state cos.spec.lifecycle_state)

-- The loop from the end: the last revision that is active.
unfoldable pub latest_active : List ClusterObjectSet → Option ClusterObjectSet
latest_active [] = none
latest_active (cos ∷ coss) =
    let later = latest_active coss in
    elim later [ some l ↦ some l | none ↦ if is_active cos then some cos else none ]
