-- ===== src/Controller/Cod/Revision/Number.antt =====
-- The number of the next revision.
use orb_operator.Base.{
  ℕ, ◌≤◌, ◌<◌, ◌≡◌, List, [], ◌∷◌, Memᴰ, All, arith, if◌then◌else◌, ltb, All-imp, All-Memᴰ, ap,
}
use orb_operator.Api.{ClusterObjectSet}
use orb_operator.Controller.Cod.Revision.{max_revision, next_revision_number}

max_revision-le :
    (m : ℕ) (coss : List ClusterObjectSet)
    → (m ≤ max_revision m coss)
      × All (λ (c : ClusterObjectSet). c.spec.revision ≤ max_revision m coss) coss
unfolding max_revision
max_revision-le m [] = (omega arith, tt)
max_revision-le m (c ∷ coss) =
    let ih = max_revision-le (if ltb m c.spec.revision then c.spec.revision else m) coss in
    (ground (arith, ih.0), (ground (arith, ih.0), ih.1))

-- The bound is attained, so it is the greatest revision.
max_revision-lt :
    (m k : ℕ) (coss : List ClusterObjectSet)
    → m < k
    → All (λ (c : ClusterObjectSet). c.spec.revision < k) coss
    → max_revision m coss < k
unfolding max_revision
max_revision-lt m k [] h a = h
max_revision-lt m k (c ∷ coss) h a =
    max_revision-lt (if ltb m c.spec.revision then c.spec.revision else m) k coss (ground arith) a.1

-- While no revision of the group has the greatest `uint32`, the next number is positive, is a
-- `uint32` and is greater than every revision of the group.
pub next_revision_number-fresh :
    (coss : List ClusterObjectSet)
    → All (λ (c : ClusterObjectSet). c.spec.revision < 4294967295) coss
    → (0 < next_revision_number coss)
      × (next_revision_number coss < 4294967296)
      × All (λ (c : ClusterObjectSet). c.spec.revision < next_revision_number coss) coss
unfolding next_revision_number
next_revision_number-fresh coss h =
    let top = max_revision-lt 0 4294967295 coss (omega arith) h in
    (
      omega (arith, top),
      omega (arith, top),
      All-imp (λ c (p : c.spec.revision ≤ max_revision 0 coss). omega (arith, p, top)) coss
          (max_revision-le 0 coss).1,
    )

-- Once a revision has the greatest `uint32`, and none has more, the next number is 0, which the
-- resource definition does not admit.
pub next_revision_number_wraps :
    (coss : List ClusterObjectSet) (c : ClusterObjectSet)
    → All (λ (c : ClusterObjectSet). c.spec.revision < 4294967296) coss
    → Memᴰ c coss
    → c.spec.revision ≡ 4294967295
    → next_revision_number coss ≡ 0
unfolding next_revision_number
next_revision_number_wraps coss c h m e =
    let (d, f, p) = All-Memᴰ coss (max_revision-le 0 coss).1 m in
    omega (
      arith,
      max_revision-lt 0 4294967296 coss (omega arith) h,
      ap (λ (x : ClusterObjectSet). x.spec.revision) f,
      p,
      e,
    )
