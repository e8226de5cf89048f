-- ===== src/Controller/Cos/Handler/Closing.antt =====
-- The calls that write the status and give the finalizer back, against the protocol.
use orb_operator.Base.{
  true, [], ◌∷◌, ◌++◌, ◌≡◌, refl, sym, subst, ap, inl, inr, ◌⊎◌, Bool-cases, ◌∙◌,
}
use orb_operator.Api.Rules.{IsAllowedChange}
use orb_operator.Errors.{Result, ok, err}
use orb_operator.Api.{ClusterObjectSet}
use orb_operator.Kube.{RemovesFinalizer}
use orb_operator.Controller.Server.{
  free_accessor, patch_cos, History, M, ◌>>=◌, ◌>>◌, perform, wrapping,
}
use orb_operator.Controller.Server.Effects.{ends-bind}
use orb_operator.Controller.Finalizer.{
  remove_finalizer, without_finalizer, wait_for_finalizer_removal,
}
use orb_operator.Controller.Cos.Env.{Env, finalizer_key, field_owner}
use orb_operator.Controller.Cos.Protocol.{
  Facts, Stage, start, opened, reported, freed, done, Move, Run, Follows, Run-trans, Run-one,
}
use orb_operator.Controller.Cos.Prepare.{has_finalizer}
use orb_operator.Controller.Cos.Handler.{
  do_teardown, teardown_prepared, failed, answered, Preparation, Outcome, write_status, release,
}
use orb_operator.Controller.Cos.Handler.Work.{facts_of, WorkEnds}

-- A computation whose first step ends at a stage from which the second goes on.
pub Follows-bind :
    {A B : Type 0} {f : Facts} {s s' : Stage} (m : M A) (k : A → M B) (h : History)
    → Run f s h s' (m h).1
    → ((a : A) → (m h).0 ≡ ok a → Follows f s' (m h).1 (k a (m h).1).1)
    → Follows f s h ((m >>= k) h).1
Follows-bind {B} {f} {s} {s'} m k h run good =
    ends-bind {B = B} (λ p. Follows f s h p.1) m k h
      (λ a e. let (s'', more) = good a e in (s'', Run-trans run more)) (λ _ _. (s', run))

module _ {Obj GzipReader Cel Options PhaseOptions : Type 0}
    (env : Env Obj GzipReader Cel Options PhaseOptions) where
  -- From where the finalizer may be given back.
  abbrev pub IsReleasable : Facts → Stage → Type 0
  IsReleasable f s =
      (f.held ≡ true)
      × (f.going ≡ true)
      × (((f.orphaned ≡ true) × (s ≡ start)) ⊎ ((s ≡ opened) ⊎ (s ≡ reported)))

  free-Run :
      (f : Facts) (s : Stage) (cos : ClusterObjectSet) (h : History)
      → IsReleasable f s
      → Run f s h freed (h ++ (free_accessor cos ∷ []))
  free-Run f s cos h (held, going, inl (orphaned, e)) =
      rw e (Run-one h (Move.free_orphaned held going orphaned))
  free-Run f s cos h (held, going, inr (inl e)) = rw e (Run-one h (Move.free_unreported going))
  free-Run f s cos h (held, going, inr (inr e)) = rw e (Run-one h (Move.free going))

  module _ (removes : RemovesFinalizer env.finalizers) where
    given_back :
        (f : Facts) (cos : ClusterObjectSet)
        → f.holds ≡ (facts_of env cos).holds
        → Move f freed
            (patch_cos cos
              (without_finalizer env.fields_json env.finalizers cos field_owner finalizer_key))
            done
    unfolding without_finalizer
    given_back f cos same = Move.give_back (
        ap (λ holds. holds (env.finalizers.remove_finalizer cos.metadata.finalizers finalizer_key))
          same
        ∙ removes cos.metadata.finalizers finalizer_key finalizer_key)

    remove_finalizer-Follows :
        (f : Facts) (cos : ClusterObjectSet) (h : History)
        → f.holds ≡ (facts_of env cos).holds
        → Follows f freed h
            (remove_finalizer env.fields_json env.server env.finalizers cos field_owner
              finalizer_key h).1
    unfolding remove_finalizer perform without_finalizer
    remove_finalizer-Follows f cos h same =
        elim (Bool-cases (has_finalizer env cos finalizer_key)) [
          | inl e ↦ rw e (done, Run-one h (given_back f cos same))
          | inr e ↦ rw e (freed, Run.stay)
        ]

    pub release-Follows :
        (f : Facts) (s : Stage) (cos : ClusterObjectSet) (h : History)
        → f.holds ≡ (facts_of env cos).holds
        → IsReleasable f s
        → Follows f s h (release env cos h).1
    unfolding release wrapping perform
    release-Follows f s cos h same can =
        Follows-bind (wrapping "freeing access manager: " (perform env.server (free_accessor cos)))
          (λ _. give_back >> wait) h (free-Run f s cos h can)
          (λ _ _.
            let (s', run) = remove_finalizer-Follows f cos (h ++ (free_accessor cos ∷ [])) same in
            Follows-bind give_back (λ _. wait) _ run (λ _ _. (s', Run.stay)))
      where
        give_back : M (Unit {0})
        give_back = wrapping "removing finalizer: " (
            remove_finalizer env.fields_json env.server env.finalizers cos field_owner
              finalizer_key)

        wait : M (Unit {0})
        wait = wrapping "waiting for cache to sync finalizer removal: " (λ k. (
          wait_for_finalizer_removal env.finalizers env.poll (env.get_later k cos.metadata.name)
              finalizer_key,
          k,
        ))

  -- What the write of the status leaves: without an error of the work it may be followed by the
  -- release.
  pub record StatusWritten (f : Facts) (h : History) (r : Result (Unit {0}) × History)
      : Type 0 where
    pub stage : Stage
    pub run : Run f start h stage r.1
    pub releasable : r.0 ≡ ok tt → (stage ≡ opened) ⊎ (stage ≡ reported)

  pub write_status-StatusWritten :
      {A : Type 0} (f : Facts) (h : History) (existing cos : ClusterObjectSet) (o : Outcome A)
      → f.held ≡ true
      → IsAllowedChange f.before cos.status
      → WorkEnds env f h o
      → StatusWritten f h (write_status env existing cos o.error o.history)
  unfolding write_status perform
  write_status-StatusWritten f h existing cos o held allowed (inl (e, failed, same)) =
      elim (Bool-cases (env.status_equal existing.status cos.status)) [
        | inl q ↦
            rw q
              (record { stage = start; run = at_start; releasable = λ r. absurd (cc (r, failed)) })
        | inr q ↦ rw q (record {
          stage = reported;
          run = Run-trans at_start (Run-one o.history (Move.report_unopened held allowed));
          releasable = λ _. inr refl;
        })
      ]
    where
      at_start : Run f start h start o.history
      at_start = subst (λ k. Run f start h start k) (sym same) Run.stay
  write_status-StatusWritten f h existing cos o held allowed (inr run) =
      elim (Bool-cases (env.status_equal existing.status cos.status)) [
        | inl q ↦ rw q (record { stage = opened; run = run; releasable = λ _. inl refl })
        | inr q ↦ rw q (record {
          stage = reported;
          run = Run-trans run (Run-one o.history (Move.report allowed));
          releasable = λ _. inr refl;
        })
      ]

  teardown_prepared-cos :
      (cos : ClusterObjectSet) (p : Preparation env) → (teardown_prepared env cos p).cos ≡ cos
  unfolding teardown_prepared failed answered
  teardown_prepared-cos cos (err e, h) = refl
  teardown_prepared-cos cos (ok (engine, rev), h) = refl

  pub do_teardown-cos : (cos : ClusterObjectSet) (h : History) → (do_teardown env cos h).cos ≡ cos
  unfolding do_teardown
  do_teardown-cos cos h = teardown_prepared-cos cos _
