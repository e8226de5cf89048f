-- ===== src/Controller/Cos/Handler/Writes.antt =====
-- Which steps of the handler of a revision write no status, and where the others write one.
use orb_operator.Base.{
  true, not, Bool, ◌≡◌, sym, subst, if-elim, [], ◌∷◌, Option, inl, inr, Bool-cases,
}
use orb_operator.Errors.{Error}
use orb_operator.Api.{ClusterObjectSet}
use orb_operator.ApplyConfig.{ApplyConfig, with_finalizers}
use orb_operator.Kube.{no_requeue}
use orb_operator.Boxcutter.{RevisionTeardownResult}
use orb_operator.Controller.Server.{
  Call, History, M, ◌>>◌, apply_cos, lift, perform, return, update_cos_status, wrapping,
}
use orb_operator.Controller.Server.Effects.{Adds, Adds-bind, Adds-nothing, Adds-one, Adds-trans}
use orb_operator.Controller.Apply.{apply}
use orb_operator.Controller.Cos.Env.{Env, field_owner, finalizer_key}
use orb_operator.Controller.Cos.Protocol.{Facts, Move, Run, opened, start}
use orb_operator.Controller.Cos.Prepare.{ensure_finalizer, has_finalizer}
use orb_operator.Controller.Cos.Handler.{finish_teardown, is_torn_down, release, write_status}
use orb_operator.Controller.Cos.Handler.Released.{released-Adds}
use orb_operator.Controller.Cos.Handler.Work.{WorkEnds}
use orb_operator.Controller.Cos.Handler.{Outcome}

written : ClusterObjectSet → Call → ClusterObjectSet
written d (update_cos_status cos) = cos
written d _ = d

module _ (Q : ClusterObjectSet → Type 0) where
  -- A status that the call writes satisfies the predicate.
  abbrev pub Writes : Call → Type 0
  Writes c = (cos : ClusterObjectSet) → c ≡ update_cos_status cos → Q cos

  pub Writes-status : (cos : ClusterObjectSet) → Q cos → Writes (update_cos_status cos)
  unfolding written
  Writes-status cos q other e = subst (λ c. Q (written other c)) e q

  Run-start-Writes : {f : Facts} {h h' : History} → Run f start h start h' → Adds Writes h h'
  Run-start-Writes Run.stay = Adds-nothing Writes _
  Run-start-Writes (Run.call r m e) = elim m [ ]

  pub Run-opened-Writes : {f : Facts} {h h' : History} → Run f start h opened h' → Adds Writes h h'
  Run-opened-Writes (Run.call r (Move.open_accessor _) e) =
      subst (Adds Writes _) (sym e)
        (Adds-trans Writes (Run-start-Writes r) (Adds-one Writes _ _ (λ cos q. absurd (cc q))))
  Run-opened-Writes (Run.call r Move.write e) =
      subst (Adds Writes _) (sym e)
        (Adds-trans Writes (Run-opened-Writes r) (Adds-one Writes _ _ (λ cos q. absurd (cc q))))

  module _ {Obj GzipReader Cel Options PhaseOptions : Type 0}
      (env : Env Obj GzipReader Cel Options PhaseOptions) where
    pub WorkEnds-Writes :
        {A : Type 0} (f : Facts) (h : History) (o : Outcome A)
        → WorkEnds env f h o
        → Adds Writes h o.history
    WorkEnds-Writes f h o (inl (e, failed, same)) =
        subst (Adds Writes h) (sym same) (Adds-nothing Writes h)
    WorkEnds-Writes f h o (inr run) = Run-opened-Writes run

    pub ensure_finalizer-Writes :
        (cos : ClusterObjectSet) (h : History) → Adds Writes h (ensure_finalizer env cos h).1
    unfolding ensure_finalizer apply wrapping perform
    ensure_finalizer-Writes cos h =
        if-elim (λ (m : M Bool). Adds Writes h (m h).1) (not (has_finalizer env cos finalizer_key))
          _ _
          (λ _.
            Adds-bind Writes extracting (λ ac. applying ac >> return true) h (Adds-nothing Writes h)
              (λ ac _.
                Adds-bind Writes (applying ac) (λ _. return true) h
                  (Adds-one Writes h _ (λ c q. absurd (cc q))) (λ _ _. Adds-nothing Writes _)))
          (λ _. Adds-nothing Writes h)
      where
        extracting : M ApplyConfig
        extracting = wrapping "extracting apply config: " (lift (env.extract cos field_owner))

        applying : ApplyConfig → M (Unit {0})
        applying ac =
            perform env.server (apply_cos (with_finalizers (finalizer_key ∷ []) ac) field_owner)

    pub write_status-Writes :
        (existing cos : ClusterObjectSet) (e : Option Error) (h : History)
        → Q cos
        → Adds Writes h (write_status env existing cos e h).1
    unfolding write_status perform
    write_status-Writes existing cos e h q =
        elim (Bool-cases (env.status_equal existing.status cos.status)) [
          | inl r ↦ rw r (Adds-nothing Writes h)
          | inr r ↦ rw r (Adds-one Writes h (update_cos_status cos) (Writes-status cos q))
        ]

    pub released-Writes :
        (cos : ClusterObjectSet) (h : History)
        → Adds Writes h ((release env cos >> return no_requeue) h).1
    released-Writes cos h =
        released-Adds env Writes cos h (λ c q. absurd (cc q)) (λ c q. absurd (cc q))

    pub finish_teardown-Writes :
        (cos : ClusterObjectSet) (result : Option RevisionTeardownResult) (h : History)
        → Adds Writes h (finish_teardown env cos result h).1
    unfolding finish_teardown
    finish_teardown-Writes cos result h = elim (Bool-cases (is_torn_down result)) [
      | inl q ↦ rw q (released-Writes cos h)
      | inr q ↦ rw q (Adds-nothing Writes h)
    ]
