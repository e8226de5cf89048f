-- ===== src/Revision/Engine/Effects.antt =====
-- What the engine does to the cluster, by what boxcutter's engines do to it.
use orb_operator.Base.{
  ◌||◌, ℕ, Option, none, some, List, [], ◌∷◌, ◌≡◌, subst, inl, inr, Bool-cases, is_some,
}
use orb_operator.Errors.{Error}
use orb_operator.Api.{ObservedPhase}
use orb_operator.Boxcutter.{RevisionResult, RevisionTeardownResult, BoxPhase, BoxRevision}
use orb_operator.Revision.Engine.{
  Answer, Engines, run_phases, read_only_pass, later_passes, after_gated, reconcile, with_read_only,
  teardown,
}

-- A relation between the cluster before and after a call that holds for all that boxcutter's
-- engines do.
pub record Bounds {W Obj Probe Owner Options PhaseOptions : Type 0}
    (e : Engines W Obj Probe Owner Options PhaseOptions) (Rel : W → W → Type 0) : Type 0 where
  pub nothing : (w : W) → Rel w w
  pub both : {v w x : W} → Rel v w → Rel w x → Rel v x
  pub of_reconcile :
      (rev : BoxRevision Obj Probe Owner) (opts : Options) (w : W)
      → Rel w (e.revision_reconcile rev opts w).cluster
  pub of_teardown :
      (rev : BoxRevision Obj Probe Owner) (w : W) → Rel w (e.revision_teardown rev w).cluster
  pub of_phase :
      (n : ℕ) (p : BoxPhase Obj Probe) (opts : PhaseOptions) (w : W)
      → Rel w (e.phase_reconcile n p opts w).cluster

module _ {W Obj Probe Owner Options PhaseOptions : Type 0}
    (e : Engines W Obj Probe Owner Options PhaseOptions) (Rel : W → W → Type 0)
    (b : Bounds e Rel) where
  run_phases-Rel :
      (adjust : PhaseOptions → PhaseOptions) (n : ℕ) (opts : Options)
      (ps : List (BoxPhase Obj Probe)) (w : W)
      → Rel w (run_phases e adjust n opts ps w).cluster
  unfolding run_phases
  run_phases-Rel adjust n opts [] w = b.nothing w
  run_phases-Rel adjust n opts (p ∷ ps) w =
      let a = e.phase_reconcile n p (adjust (e.for_phase opts p.name)) w in
      let first = b.of_phase n p (adjust (e.for_phase opts p.name)) w in
      elim (Bool-cases (is_some a.error)) [
        | inl q ↦ rw q first
        | inr q ↦ rw q (b.both first (run_phases-Rel adjust n opts ps a.cluster))
      ]

  read_only_pass-Rel :
      (error : Option Error) (n : ℕ) (opts : Options) (ps : List (BoxPhase Obj Probe)) (w : W)
      → Rel w (read_only_pass e error n opts ps w).cluster
  unfolding read_only_pass
  read_only_pass-Rel none n opts ps w = run_phases-Rel e.pause n opts ps w
  read_only_pass-Rel (some _) n opts ps w = b.nothing w

  later_passes-Rel :
      (existing : List ObservedPhase) (rev : BoxRevision Obj Probe Owner) (opts : Options)
      (gated : RevisionResult) (w : W)
      → Rel w (later_passes e existing rev opts gated w).cluster
  unfolding later_passes
  later_passes-Rel existing rev opts gated w =
      b.both (run_phases-Rel (λ o. o) rev.revision_number opts _ w)
        (read_only_pass-Rel _ rev.revision_number opts _ _)

  unfoldable Rel-after : W → Option (Answer W RevisionResult) → Type 0
  Rel-after w none = Unit
  Rel-after w (some a) = Rel w a.cluster

  after_gated-Rel :
      (existing : List ObservedPhase) (rev : BoxRevision Obj Probe Owner) (opts : Options)
      (result : Option RevisionResult) (error : Option Error) (v w : W)
      → Rel v w
      → Rel-after v (after_gated e existing rev opts result error w)
  unfolding after_gated Rel-after
  after_gated-Rel existing rev opts result (some err) v w r = r
  after_gated-Rel existing rev opts none none v w r = tt
  after_gated-Rel existing rev opts (some gated) none v w r =
      elim (Bool-cases (is_some gated.validation_error || gated.has_progressed)) [
        | inl q ↦ rw q r
        | inr q ↦ rw q (b.both r (later_passes-Rel existing rev opts gated w))
      ]

  pub reconcile-Rel :
      (existing : List ObservedPhase) (rev : BoxRevision Obj Probe Owner) (opts : Options) (w : W)
      (a : Answer W RevisionResult)
      → reconcile e existing rev opts w ≡ some a
      → Rel w a.cluster
  unfolding reconcile Rel-after
  reconcile-Rel existing rev opts w a q =
      subst (Rel-after w) q (after_gated-Rel existing rev opts _ _ w _ (b.of_reconcile rev opts w))

  with_read_only-Rel :
      (rev : BoxRevision Obj Probe Owner) (result : Option RevisionTeardownResult)
      (error : Option Error) (v w : W)
      → Rel v w
      → Rel v (with_read_only e rev result error w).cluster
  unfolding with_read_only
  with_read_only-Rel rev result (some err) v w r = r
  with_read_only-Rel rev none none v w r = r
  with_read_only-Rel rev (some t) none v w r = r

  pub teardown-Rel : (rev : BoxRevision Obj Probe Owner) (w : W) → Rel w (teardown e rev w).cluster
  unfolding teardown
  teardown-Rel rev w = with_read_only-Rel rev _ _ w _ (b.of_teardown rev w)
