-- ===== src/Status/Cod/Progress/Deadline.antt =====
-- When a deployment's deadline counts as exceeded.
use orb_operator.Base.{
  ℕ, ◌+◌, ◌*◌, ◌-◌, ◌≤◌, ◌<◌, ◌≡◌, ◌↔◌, true, false, Option, none, some, List, [], ◌∷◌, arith, All,
  inl, inr, leb, if◌then◌else◌, Bool-cases, ap, ◌%◌, refl,
}
use orb_operator.Base.Int.{pos, negsuc, leb_ℤ, wrap64, ◌-ℤ◌, ℤ}
use orb_operator.Api.{
  Time, ObservedPhase, ClusterObjectSet, ClusterObjectDeployment,
  reason_new_cluster_object_set_progressing, reason_progress_deadline_exceeded, condition_false,
  condition_true, Condition, condition_type_progressing,
}
use orb_operator.Status.Cod.Progress.{
  later_of, last_milestone_from, last_milestone, deadline_of, elapsed_since, evaluate_limit,
  evaluate_deadline, evaluate_latest,
}
use orb_operator.Kube.{CtrlResult}

-- `last` is no earlier than a completion time.
abbrev pub IsReached : Time → Option Time → Type 0
IsReached last none = Unit
IsReached last (some t) = t ≤ last

later_of-le :
    (last : Time) (o : Option Time) → (last ≤ later_of last o) × IsReached (later_of last o) o
unfolding later_of
later_of-le last none = (omega arith, tt)
later_of-le last (some t) = (ground arith, ground arith)

IsReached-mono : (a b : Time) (o : Option Time) → a ≤ b → IsReached a o → IsReached b o
IsReached-mono a b none h r = tt
IsReached-mono a b (some t) h r = omega arith

last_milestone_from-le :
    (last : Time) (ps : List ObservedPhase)
    → (last ≤ last_milestone_from last ps)
      × All (λ (p : ObservedPhase). IsReached (last_milestone_from last ps) p.completed_at) ps
unfolding last_milestone_from
last_milestone_from-le last [] = (omega arith, tt)
last_milestone_from-le last (p ∷ ps) =
    let first = later_of-le last p.completed_at in
    let rest = last_milestone_from-le (later_of last p.completed_at) ps in
    (omega (arith, first.0, rest.0), (IsReached-mono _ _ p.completed_at rest.0 first.1, rest.1))

-- The last milestone of a revision is no earlier than its creation and than the completion of any
-- of its phases.
pub last_milestone-le :
    (cos : ClusterObjectSet)
    → (cos.metadata.creation_timestamp ≤ last_milestone cos)
      × All
          (λ (p : ObservedPhase). IsReached (last_milestone cos) p.completed_at)
          cos.status.observed_phases
unfolding last_milestone
last_milestone-le cos =
    last_milestone_from-le cos.metadata.creation_timestamp cos.status.observed_phases

-- The range in which a product or a difference of times is an `int64`.
abbrev pub limit : ℕ
limit = 9223372036854775808

deadline_of-eq : (m u : ℕ) → m * u < limit → deadline_of m (pos u) ≡ pos (m * u)
unfolding deadline_of
deadline_of-eq m u h = ground arith

elapsed_since-le :
    (last now m : Time)
    → m < limit
    → now < last + limit
    → last < now + limit
    → leb_ℤ (pos m) (elapsed_since last now) ≡ leb (last + m) now
unfolding elapsed_since
elapsed_since-le last now m h k l = ground arith

remaining-eq :
    (last now m : Time)
    → m < limit
    → now < last + limit
    → last + m < now + limit
    → leb (last + m) now ≡ false
    → wrap64 (pos m -ℤ elapsed_since last now) ≡ pos (last + m - now)
unfolding elapsed_since
remaining-eq last now m h k l e = ground arith

-- The status and the requeue of a revision that has not completed, under a deadline in range.
pub record Judges (last now m : ℕ) (r : Condition × CtrlResult) : Type 0 where
  pub status : r.0.status ≡ (if leb (last + m) now then condition_false else condition_true)
  pub reason : r.0.reason ≡ (
      if leb (last + m) now
      then reason_progress_deadline_exceeded
      else reason_new_cluster_object_set_progressing)
  pub requeue : r.1.requeue_after ≡ pos (last + m - now)

evaluate_limit-Judges :
    (cod : ClusterObjectDeployment) (last now minutes u : ℕ)
    → minutes * u < limit
    → now < last + limit
    → last + minutes * u < now + limit
    → Judges last now (minutes * u) (evaluate_limit cod (some minutes) last now (pos u))
unfolding evaluate_limit
evaluate_limit-Judges cod last now minutes u h k l =
    let m = minutes * u in
    rw (deadline_of-eq minutes u h, elapsed_since-le last now m h k (omega arith))
      (elim (Bool-cases (leb (last + m) now)) [
        | inl e ↦ rw e (record { status = rw e; reason = rw e; requeue = ap pos (ground arith) })
        | inr e ↦
            rw e
              (record { status = rw e; reason = rw e; requeue = remaining-eq last now m h k l e })
      ])

pub evaluate_deadline-Judges :
    (cod : ClusterObjectDeployment) (cos : ClusterObjectSet) (now minutes u : ℕ)
    → cod.spec.progress_deadline_minutes ≡ some minutes
    → cos.status.completed_at ≡ none
    → minutes * u < limit
    → now < last_milestone cos + limit
    → last_milestone cos + minutes * u < now + limit
    → Judges (last_milestone cos) now (minutes * u) (evaluate_deadline cod (some cos) now (pos u))
unfolding evaluate_deadline
evaluate_deadline-Judges cod cos now minutes u e c h k l =
    rw (c, e) (evaluate_limit-Judges cod (last_milestone cos) now minutes u h k l)

-- A revision that has not completed, under a deadline of `minutes` units of `u` nanoseconds whose
-- product is an `int64`, at a time near enough to its last milestone: Progressing is False exactly
-- if the deadline has passed since that milestone.
pub evaluate_deadline_iff :
    (cod : ClusterObjectDeployment) (cos : ClusterObjectSet) (now minutes u : ℕ)
    → cod.spec.progress_deadline_minutes ≡ some minutes
    → cos.status.completed_at ≡ none
    → minutes * u < limit
    → now < last_milestone cos + limit
    → last_milestone cos + minutes * u < now + limit
    → ((evaluate_deadline cod (some cos) now (pos u)).0.status ≡ condition_false)
      ↔ (last_milestone cos + minutes * u ≤ now)
evaluate_deadline_iff cod cos now minutes u e c h k l =
    let j = evaluate_deadline-Judges cod cos now minutes u e c h k l in
    (λ f. ground (arith, j.status), λ p. ground (arith, j.status))

-- For a revision that has not completed, under a deadline of `minutes` units of `u` nanoseconds whose
-- product is an `int64`, at a time from its last milestone on and before its deadline: the next
-- evaluation is scheduled for the first time at which, with nothing else changed, the deadline
-- counts as exceeded.
pub evaluate_deadline_requeue :
    (cod : ClusterObjectDeployment) (cos : ClusterObjectSet) (now minutes u : ℕ)
    → cod.spec.progress_deadline_minutes ≡ some minutes
    → cos.status.completed_at ≡ none
    → minutes * u < limit
    → last_milestone cos ≤ now
    → now < last_milestone cos + minutes * u
    → (n : ℕ) × ((evaluate_deadline cod (some cos) now (pos u)).1.requeue_after ≡ pos n)
      × ((evaluate_deadline cod (some cos) (now + n) (pos u)).0.status ≡ condition_false)
      × ((k : ℕ)
          → k < n
          → (evaluate_deadline cod (some cos) (now + k) (pos u)).0.status ≡ condition_true)
evaluate_deadline_requeue cod cos now minutes u e c h start within =
    let last = last_milestone cos in
    let judge = λ (t : ℕ) (p : t < last + limit) (q : last + minutes * u < t + limit).
      evaluate_deadline-Judges cod cos t minutes u e c h p q in
    let n = last + minutes * u - now in
    let j = judge (now + n) (omega arith) (omega arith) in
    (
      n,
      (judge now (omega arith) (omega arith)).requeue,
      ground (arith, j.status),
      λ k p. let i = judge (now + k) (omega arith) (omega arith) in ground (arith, i.status),
    )

negative :
    (minutes : ℕ)
    → 153722868 ≤ minutes
    → minutes ≤ 307445734
    → (n : ℕ) × (deadline_of minutes (pos 60000000000) ≡ negsuc n)
unfolding deadline_of
negative minutes lo hi =
    (18446744073709551615 - minutes * 60000000000 % 18446744073709551616, ground arith)

no_time_left : (n last now : ℕ) → last ≤ now → leb_ℤ (negsuc n) (elapsed_since last now) ≡ true
unfolding elapsed_since
no_time_left n last now h = ground arith

overflows :
    (cod : ClusterObjectDeployment) (last now minutes : ℕ)
    → 153722868 ≤ minutes
    → minutes ≤ 307445734
    → last ≤ now
    → (evaluate_limit cod (some minutes) last now (pos 60000000000)).0.status ≡ condition_false
unfolding evaluate_limit
overflows cod last now minutes lo hi start =
    let (n, e) = negative minutes lo hi in rw (e, no_time_left n last now start)

-- A deadline of 153,722,868 to 307,445,734 minutes, which the resource definition admits, wraps
-- around to a negative duration: a revision that has not completed is past its deadline at once.
pub evaluate_deadline_overflow :
    (cod : ClusterObjectDeployment) (cos : ClusterObjectSet) (now minutes : ℕ)
    → cod.spec.progress_deadline_minutes ≡ some minutes
    → cos.status.completed_at ≡ none
    → 153722868 ≤ minutes
    → minutes ≤ 307445734
    → last_milestone cos ≤ now
    → (evaluate_deadline cod (some cos) now (pos 60000000000)).0.status ≡ condition_false
unfolding evaluate_deadline
evaluate_deadline_overflow cod cos now minutes e c lo hi start =
    rw (c, e) (overflows cod (last_milestone cos) now minutes lo hi start)

evaluate_limit-type :
    (cod : ClusterObjectDeployment) (m : Option ℕ) (last now : Time) (unit : ℤ)
    → (evaluate_limit cod m last now unit).0.type ≡ condition_type_progressing
unfolding evaluate_limit
evaluate_limit-type cod none last now unit = refl
evaluate_limit-type cod (some m) last now unit = ground arith

evaluate_latest-type :
    (cod : ClusterObjectDeployment) (cos : ClusterObjectSet) (at : Option Time) (now : Time)
    (unit : ℤ)
    → (evaluate_latest cod cos at now unit).0.type ≡ condition_type_progressing
unfolding evaluate_latest
evaluate_latest-type cod cos none now unit = evaluate_limit-type cod _ _ now unit
evaluate_latest-type cod cos (some t) now unit = refl

pub evaluate_deadline-type :
    (cod : ClusterObjectDeployment) (cos : Option ClusterObjectSet) (now : Time) (unit : ℤ)
    → (evaluate_deadline cod cos now unit).0.type ≡ condition_type_progressing
unfolding evaluate_deadline
evaluate_deadline-type cod none now unit = refl
evaluate_deadline-type cod (some cos) now unit =
    evaluate_latest-type cod cos cos.status.completed_at now unit
