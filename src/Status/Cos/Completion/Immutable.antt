-- ===== src/Status/Cos/Completion/Immutable.antt =====
-- The completion times of phases before and after.
use orb_operator.Base.{
  String, ◌≡◌, refl, sym, ◌≢◌, ◌⊎◌, inl, inr, true, Option, none, some, List, [], ◌∷◌, map, Map,
  lookup, String_eq, eq_iff, All, All-imp, ◌∙◌, Memᴰ, arith, Bool-cases,
}
use orb_operator.Api.{Time, ObservedPhase, PhaseStatus, available, is_available_status}
use orb_operator.Api.Rules.{IsSetOnce, ArePhasesSetOnce}
use orb_operator.Status.Cos.Completion.{
  remember, completion_times, stamp, preserve_completion_times,
}

-- No two phases of a list have one name.
abbrev pub HasUniqueNames : List ObservedPhase → Type 0
HasUniqueNames [] = Unit
HasUniqueNames (p ∷ ps) = All (λ (q : ObservedPhase). p.name ≢ q.name) ps × HasUniqueNames ps

lookup-remember :
    (p : ObservedPhase) (o : Option Time) (m : Map String Time) (k : String)
    → p.name ≢ k
    → lookup (remember p o m) k ≡ lookup m k
unfolding remember
lookup-remember p none m k h = refl
lookup-remember p (some t) m k h = ground (arith, eq_iff p.name k)

lookup-completion_times_absent :
    (ps : List ObservedPhase) (m : Map String Time) (k : String)
    → All (λ (q : ObservedPhase). k ≢ q.name) ps
    → lookup (completion_times ps m) k ≡ lookup m k
unfolding completion_times
lookup-completion_times_absent [] m k h = refl
lookup-completion_times_absent (p ∷ ps) m k h =
    rw (lookup-completion_times_absent ps (remember p p.completed_at m) k h.1)
      (lookup-remember p p.completed_at m k (λ e. h.0 (sym e)))

-- The index holds each completion time under the phase's name.
lookup-completion_times :
    (ps : List ObservedPhase) (m : Map String Time)
    → HasUniqueNames ps
    → All
        (λ (p : ObservedPhase).
          (t : Time) → p.completed_at ≡ some t → lookup (completion_times ps m) p.name ≡ some t)
        ps
unfolding completion_times
lookup-completion_times [] m u = tt
lookup-completion_times (p ∷ ps) m u = (
  λ t e.
      rw (lookup-completion_times_absent ps (remember p p.completed_at m) p.name u.0)
        (rw e (ground (arith, eq_iff p.name p.name))),
  lookup-completion_times ps (remember p p.completed_at m) u.1,
)

name-stamp : (now : Time) (p : ObservedPhase) (o : Option Time) → (stamp now p o).name ≡ p.name
unfolding stamp
name-stamp now p none = ground arith
name-stamp now p (some t) = refl

keeps :
    (now : Time) (p : ObservedPhase) (old l : Option Time)
    → ((t : Time) → old ≡ some t → l ≡ some t)
    → IsSetOnce old (stamp now p l).completed_at
unfolding stamp
keeps now p none l h = tt
keeps now p (some t) l h = rw (h t refl)

-- One phase of the old status against the new phases.
stamped :
    (old : ObservedPhase) (current : List ObservedPhase) (now : Time) (m : Map String Time)
    → ((t : Time) → old.completed_at ≡ some t → lookup m old.name ≡ some t)
    → All
        (λ (q : ObservedPhase). old.name ≡ q.name → IsSetOnce old.completed_at q.completed_at)
        (map (λ p. stamp now p (lookup m p.name)) current)
stamped old [] now m h = tt
stamped old (p ∷ ps) now m h = (
  λ e. keeps now p old.completed_at _ λ t f. rw (e ∙ name-stamp now p (lookup m p.name)) at (h t f),
  stamped old ps now m h,
)

-- Where the existing phases have different names, as the API server requires, no completion time
-- that is set changes: the new phases obey the rule of the resource definition.
pub preserve_completion_times-ArePhasesSetOnce :
    (existing current : List ObservedPhase) (now : Time)
    → HasUniqueNames existing
    → ArePhasesSetOnce existing (preserve_completion_times existing current now)
unfolding preserve_completion_times
preserve_completion_times-ArePhasesSetOnce existing current now u =
    All-imp (λ old h. stamped old current now (completion_times existing []) h) existing
      (lookup-completion_times existing [] u)

lookup-remember_cases :
    (p : ObservedPhase) (o : Option Time) (m : Map String Time) (k : String) (t : Time)
    → lookup (remember p o m) k ≡ some t
    → ((p.name ≡ k) × (o ≡ some t)) ⊎ (lookup m k ≡ some t)
unfolding remember
lookup-remember_cases p none m k t e = inr e
lookup-remember_cases p (some u) m k t e = ground (arith, eq_iff p.name k)

-- What the index holds comes from an existing phase of that name.
completion_times_source :
    (ps : List ObservedPhase) (m : Map String Time) (k : String) (t : Time)
    → lookup (completion_times ps m) k ≡ some t
    → ((p : ObservedPhase) × Memᴰ p ps × (p.name ≡ k) × (p.completed_at ≡ some t))
      ⊎ (lookup m k ≡ some t)
unfolding completion_times
completion_times_source [] m k t e = inr e
completion_times_source (p ∷ ps) m k t e =
    elim (completion_times_source ps (remember p p.completed_at m) k t e) [
      | inl (q, i, n, c) ↦ inl (q, Memᴰ.tail i, n, c)
      | inr f ↦ elim (lookup-remember_cases p p.completed_at m k t f) [
        | inl (n, c) ↦ inl (p, Memᴰ.head refl, n, c)
        | inr g ↦ inr g
      ]
    ]

-- Where a completion time of a phase without one comes from.
abbrev pub IsStamped : List ObservedPhase → Time → ObservedPhase → Type 0
IsStamped existing now q =
    (t : Time)
    → q.completed_at ≡ some t
    → ((p : ObservedPhase) × Memᴰ p existing × (p.name ≡ q.name) × (p.completed_at ≡ some t))
      ⊎ ((q.status ≡ available) × (t ≡ now))

status_available : (s : PhaseStatus) → is_available_status s ≡ true → s ≡ available
status_available available h = refl
status_available _ h = cc

stamp-IsStamped :
    (existing : List ObservedPhase) (now : Time) (p : ObservedPhase) (l : Option Time)
    → p.completed_at ≡ none
    → ((t : Time)
        → l ≡ some t
        → (q : ObservedPhase) × Memᴰ q existing × (q.name ≡ p.name) × (q.completed_at ≡ some t))
    → IsStamped existing now (stamp now p l)
unfolding stamp
stamp-IsStamped existing now p (some u) e h t f = inl (h t f)
stamp-IsStamped existing now p none e h t f = elim (Bool-cases (is_available_status p.status)) [
  | inl a ↦ inr (rw a (status_available p.status a), ground arith)
  | inr b ↦ absurd (ground arith)
]

-- New phases that have no completion time yet get one only from an existing phase of the same name
-- that has it, or, if they are Available, the present time.
pub preserve_completion_times-IsStamped :
    (existing current : List ObservedPhase) (now : Time)
    → All (λ (p : ObservedPhase). p.completed_at ≡ none) current
    → All (IsStamped existing now) (preserve_completion_times existing current now)
unfolding preserve_completion_times
preserve_completion_times-IsStamped existing [] now h = tt
preserve_completion_times-IsStamped existing (p ∷ ps) now h = (
  stamp-IsStamped existing now p _ h.0
      (λ t e. elim (completion_times_source existing [] p.name t e) [ inl q ↦ q | inr f ↦ cc ]),
  preserve_completion_times-IsStamped existing ps now h.1,
)

pub ArePhasesSetOnce-nil : (ps : List ObservedPhase) → ArePhasesSetOnce ps []
ArePhasesSetOnce-nil [] = tt
ArePhasesSetOnce-nil (p ∷ ps) = (tt, ArePhasesSetOnce-nil ps)

IsSetOnce-self : (o : Option Time) → IsSetOnce o o
IsSetOnce-self none = tt
IsSetOnce-self (some t) = refl

-- A phase that stands first has a name of its own, on both sides of the rule.
pub ArePhasesSetOnce-self : (ps : List ObservedPhase) → HasUniqueNames ps → ArePhasesSetOnce ps ps
ArePhasesSetOnce-self [] u = tt
ArePhasesSetOnce-self (p ∷ ps) u = (
  (λ e. IsSetOnce-self p.completed_at, All-imp (λ q n e. absurd (n e)) ps u.0),
  others ps u.0 (ArePhasesSetOnce-self ps u.1),
)
  where
    others :
        (qs : List ObservedPhase)
        → All (λ (q : ObservedPhase). p.name ≢ q.name) qs
        → ArePhasesSetOnce qs ps
        → ArePhasesSetOnce qs (p ∷ ps)
    others [] n h = tt
    others (q ∷ qs) n h = ((λ e. absurd (n.0 (sym e)), h.0), others qs n.1 h.1)
