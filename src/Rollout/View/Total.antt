-- ===== src/Rollout/View/Total.antt =====
-- The prompt is always there.
use orb_operator.Base.{
  String, ◌≡◌, ◌≢◌, refl, Option, some, List, [], ◌∷◌, Option-cases, inl, inr, subst, sym, is_some,
  true,
}
use orb_operator.Errors.{Error}
use orb_operator.Rollout.{Model, Step, Shown, current}
use orb_operator.Rollout.Deadline.{Render, Style}
use orb_operator.Rollout.Run.{
  Running, Reached, Progress, idle, running, waits, failed, program_at, current_lem,
}
use orb_operator.Rollout.Run.Points.{Reached-IsAt}
use orb_operator.Rollout.View.{step_text, prompt_text, view_prompt}

module _ (render : Render) (text : Error → String) where
  abbrev IsThere : Option String → Type 0
  IsThere o = is_some o ≡ true

  step_text-IsThere :
      (m : Model) (style : Style) (below : Step → String) (s : Step)
      → current m ≡ some s
      → IsThere (step_text render m style below)
  unfolding step_text
  step_text-IsThere m style below s e = rw (step_text, e) refl

  prompt_at :
      (p : Progress) (shown : Shown) → IsThere (prompt_text render text (program_at p shown).model)
  unfolding prompt_text
  prompt_at (idle before []) shown = refl
  prompt_at (idle before (s ∷ rest)) shown = step_text-IsThere _ _ _ s (current_lem before rest s)
  prompt_at (running before s rest) shown = step_text-IsThere _ _ _ s (current_lem before rest s)
  prompt_at (waits before s rest h) shown = step_text-IsThere _ _ _ s (current_lem before rest s)
  prompt_at (failed before s rest e) shown = refl

  view_at : (m : Model) → IsThere (prompt_text render text m) → IsThere (view_prompt render text m)
  unfolding view_prompt
  view_at m h = elim (Option-cases (prompt_text render text m)) [
    | inl e ↦ absurd (cc (e, h))
    | inr (s, e) ↦ rw (view_prompt, e) refl
  ]

  -- The prompt is drawn without a panic in every state that a run of at least one step reaches
  -- while no refresh fails.
  pub view_prompt_total :
      {steps : List Step} {r : Running}
      → steps ≢ []
      → Reached steps r
      → is_some (view_prompt render text r.model) ≡ true
  view_prompt_total {steps} {r} h reached =
      let at = Reached-IsAt h reached in
      view_at r.model (
        subst (λ (x : Running). IsThere (prompt_text render text x.model)) (sym at.program)
          (prompt_at at.point at.shown))
