-- ===== src/Controller/Cos/Handler/Released.antt =====
-- What a release that succeeds has done.
use orb_operator.Base.{ℕ, Bool-cases, inl, inr, true, [], ◌∷◌, ◌++◌, ◌≡◌, refl}
use orb_operator.Errors.{ok}
use orb_operator.Api.{ClusterObjectSet}
use orb_operator.Kube.{no_requeue}
use orb_operator.Controller.Server.{
  Call, return, free_accessor, patch_cos, History, M, ◌>>◌, perform, wrapping,
}
use orb_operator.Controller.Server.Effects.{
  Adds, Adds-bind, Adds-nothing, Adds-one, ends-bind, of_wrap_result,
}
use orb_operator.Controller.Finalizer.{
  PollsUntil, is_removed, remove_finalizer, without_finalizer, wait_for_finalizer_removal,
}
use orb_operator.Controller.Cos.Env.{Env, finalizer_key, field_owner}
use orb_operator.Controller.Cos.Prepare.{has_finalizer}
use orb_operator.Controller.Cos.Handler.{release}

module _ {Obj GzipReader Cel Options PhaseOptions : Type 0}
    (env : Env Obj GzipReader Cel Options PhaseOptions) where
  pub record Released (cos : ClusterObjectSet) (h : History) (h' : History) : Type 0 where
    pub calls :
        h'
        ≡ (h ++ (free_accessor cos ∷ []))
          ++ (patch_cos cos
                (without_finalizer env.fields_json env.finalizers cos field_owner finalizer_key)
              ∷ [])
    pub attempt : ℕ
    pub seen :
        is_removed env.finalizers finalizer_key (env.get_later h' cos.metadata.name attempt)
        ≡ ok true

  abbrev pub removing : ClusterObjectSet → M (Unit {0})
  removing cos =
      wrapping "removing finalizer: "
        (remove_finalizer env.fields_json env.server env.finalizers cos field_owner finalizer_key)

  waiting : ClusterObjectSet → M (Unit {0})
  waiting cos = wrapping "waiting for cache to sync finalizer removal: " (λ k. (
    wait_for_finalizer_removal env.finalizers env.poll (env.get_later k cos.metadata.name)
        finalizer_key,
    k,
  ))

  pub removing-history :
      (cos : ClusterObjectSet) (h : History)
      → has_finalizer env cos finalizer_key ≡ true
      → (removing cos h).1
        ≡ h
          ++ (patch_cos cos
                (without_finalizer env.fields_json env.finalizers cos field_owner finalizer_key)
              ∷ [])
  unfolding wrapping remove_finalizer perform
  removing-history cos h held = rw held refl

  -- The wait is told by the polling.
  waiting-seen :
      (cos : ClusterObjectSet) (h : History)
      → PollsUntil env.poll
      → (waiting cos h).0 ≡ ok tt
      → (n : ℕ) × (is_removed env.finalizers finalizer_key (env.get_later h cos.metadata.name n)
          ≡ ok true)
  unfolding waiting wrapping wait_for_finalizer_removal
  waiting-seen cos h polls q = polls _ (of_wrap_result _ _ tt q)

  module _ (P : Call → Type 0) where
    removing-Adds :
        (cos : ClusterObjectSet) (h : History)
        → P (
            patch_cos cos
              (without_finalizer env.fields_json env.finalizers cos field_owner finalizer_key))
        → Adds P h (removing cos h).1
    unfolding wrapping remove_finalizer perform
    removing-Adds cos h patched = elim (Bool-cases (has_finalizer env cos finalizer_key)) [
      | inl r ↦ rw r (Adds-one P h _ patched)
      | inr r ↦ rw r (Adds-nothing P h)
    ]

    release-Adds :
        (cos : ClusterObjectSet) (h : History)
        → P (free_accessor cos)
        → P (
            patch_cos cos
              (without_finalizer env.fields_json env.finalizers cos field_owner finalizer_key))
        → Adds P h (release env cos h).1
    unfolding release wrapping perform waiting
    release-Adds cos h freed patched =
        Adds-bind P (wrapping "freeing access manager: " (perform env.server (free_accessor cos)))
          (λ _. removing cos >> waiting cos) h (Adds-one P h _ freed)
          (λ _ _.
            Adds-bind P (removing cos) (λ _. waiting cos) _ (removing-Adds cos _ patched)
              (λ _ _. Adds-nothing P _))

    pub released-Adds :
        (cos : ClusterObjectSet) (h : History)
        → P (free_accessor cos)
        → P (
            patch_cos cos
              (without_finalizer env.fields_json env.finalizers cos field_owner finalizer_key))
        → Adds P h ((release env cos >> return no_requeue) h).1
    released-Adds cos h freed patched =
        Adds-bind P (release env cos) (λ _. return no_requeue) h (release-Adds cos h freed patched)
          (λ _ _. Adds-nothing P _)

  pub release-Released :
      (cos : ClusterObjectSet) (h : History)
      → PollsUntil env.poll
      → has_finalizer env cos finalizer_key ≡ true
      → (release env cos h).0 ≡ ok tt
      → Released cos h (release env cos h).1
  unfolding release wrapping perform waiting
  release-Released cos h polls held =
      ends-bind (λ p. p.0 ≡ ok tt → Released cos h p.1)
        (wrapping "freeing access manager: " (perform env.server (free_accessor cos)))
        (λ _. removing cos >> waiting cos) h
        (λ _ _.
          ends-bind (λ p. p.0 ≡ ok tt → Released cos h p.1) (removing cos) (λ _. waiting cos)
            freed_history
            (λ _ _ q.
              let (n, seen) = waiting-seen cos (removing cos freed_history).1 polls q in
              record { calls = removing-history cos freed_history held; attempt = n; seen = seen })
            (λ _ _ q. absurd (cc q)))
        (λ _ _ q. absurd (cc q))
    where
      freed_history : History
      freed_history = h ++ (free_accessor cos ∷ [])
