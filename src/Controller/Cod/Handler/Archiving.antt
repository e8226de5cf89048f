-- ===== src/Controller/Cod/Handler/Archiving.antt =====
-- When older revisions are archived.
use orb_operator.Base.Sort.{IsSortedBy, ascending}
use orb_operator.Controller.Cod.Env.{revision_of}
use orb_operator.Base.{
  ◌≤◌, Memᴰ, All-imp, All-members, leb→le, some-injective, subst, arith, true, not, none, some,
  List, [], ◌∷◌, ◌≡◌, refl, last_of, Option, Bool-cases, inl, inr, ltb, length, All,
}
use orb_operator.Api.{ClusterObjectSet}
use orb_operator.ApplyConfig.{ApplyConfig}
use orb_operator.Status.Cod.Availability.{is_available}
use orb_operator.Controller.Server.{Call, apply_cos, History, return, perform, wrapping, lift, ◌>>◌}
use orb_operator.Controller.Server.Effects.{Adds, Adds-nothing, Adds-one, Adds-bind, of_wrap_result}
use orb_operator.Controller.Apply.{apply}
use orb_operator.Controller.Cod.Handler.{archive_all, archive_superseded, archive_before}
use orb_operator.Controller.Cod.Env.{Env, field_owner, is_archived, set_archived, but_last}
use orb_operator.Errors.{ok}
use orb_operator.Base.{String}

-- What holds of each call that archives a revision of a list holds of all calls of the loop.
module _ (env : Env) (P : Call → Type 0) where
  abbrev pub HoldsOf : ClusterObjectSet → Type 0
  HoldsOf cos =
      (ac : ApplyConfig)
      → env.extract cos field_owner ≡ ok ac
      → P (apply_cos (set_archived ac) field_owner)

  mutate_cos-Adds :
      (cos : ClusterObjectSet) (h : History)
      → HoldsOf cos
      → Adds P h
          (apply env.server env.extract cos field_owner (λ c. not (is_archived c)) set_archived h).1
  unfolding apply wrapping perform
  mutate_cos-Adds cos h holds = elim (Bool-cases (is_archived cos)) [
    | inl e ↦ rw e (Adds-nothing P h)
    | inr e ↦ rw e (
        Adds-bind P (wrapping "extracting apply config: " (lift (env.extract cos field_owner)))
          (λ ac. perform env.server (apply_cos (set_archived ac) field_owner) >> return true) h
          (Adds-nothing P h)
          (λ ac x.
            Adds-bind P (perform env.server (apply_cos (set_archived ac) field_owner))
              (λ _. return true) h
              (Adds-one P h (apply_cos (set_archived ac) field_owner)
                (holds ac (of_wrap_result _ _ ac x)))
              (λ _ _. Adds-nothing P _)))
  ]

  archive_all-Adds :
      (coss : List ClusterObjectSet) (h : History)
      → All HoldsOf coss
      → Adds P h (archive_all env coss h).1
  unfolding archive_all wrapping
  archive_all-Adds [] h holds = Adds-nothing P h
  archive_all-Adds (cos ∷ coss) h (first, rest) =
      Adds-bind P
        (wrapping _
          (apply env.server env.extract cos field_owner (λ c. not (is_archived c)) set_archived))
        (λ _. archive_all env coss) h (mutate_cos-Adds cos h first)
        (λ _ _. archive_all-Adds coss _ rest)

  archive_before-Adds :
      (latest : Option ClusterObjectSet) (older : List ClusterObjectSet) (h : History)
      → ((l : ClusterObjectSet)
          → latest ≡ some l
          → is_available env.conditions l ≡ true
          → All HoldsOf older)
      → Adds P h (archive_before env latest older h).1
  unfolding archive_before
  archive_before-Adds none older h holds = Adds-nothing P h
  archive_before-Adds (some latest) older h holds =
      elim (Bool-cases (is_available env.conditions latest)) [
        | inl e ↦ rw e (archive_all-Adds older h (holds latest refl e))
        | inr e ↦ rw e (Adds-nothing P h)
      ]

  -- All calls of archiving are such calls, on the owned revisions but the last.
  pub archive_superseded-All :
      (owned : List ClusterObjectSet) (h : History)
      → ((latest : ClusterObjectSet)
          → last_of owned ≡ some latest
          → is_available env.conditions latest ≡ true
          → All HoldsOf (but_last owned))
      → Adds P h (archive_superseded env owned h).1
  unfolding archive_superseded
  archive_superseded-All owned h holds = elim (Bool-cases (ltb (length owned) 2)) [
    | inl e ↦ rw e (Adds-nothing P h)
    | inr e ↦ rw e (archive_before-Adds (last_of owned) (but_last owned) h holds)
  ]

-- The last of a sorted list is the newest.
last_of-newest :
    (owned : List ClusterObjectSet) (latest : ClusterObjectSet)
    → IsSortedBy (ascending revision_of) owned
    → last_of owned ≡ some latest
    → All (λ c. revision_of c ≤ revision_of latest) owned
last_of-newest [] latest sorted e = tt
last_of-newest (x ∷ []) latest sorted e = (
  subst (λ (c : ClusterObjectSet). revision_of x ≤ revision_of c) (some-injective _ _ e)
      (omega arith),
  tt,
)
last_of-newest (x ∷ y ∷ ys) latest sorted e =
    let below = last_of-newest (y ∷ ys) latest sorted.1 e in
    (omega (arith, leb→le (revision_of x) (revision_of y) sorted.0.0, below.0), below)

module _ (env : Env) (owned : List ClusterObjectSet) where
  -- A revision other than the newest is archived by the controller's own fields, and the newest is
  -- available.
  pub record Supersedes (ac : ApplyConfig) (owner : String) : Type 0 where
    pub latest : ClusterObjectSet
    pub is_last : last_of owned ≡ some latest
    pub newest : All (λ c. revision_of c ≤ revision_of latest) owned
    pub available : is_available env.conditions latest ≡ true
    pub cos : ClusterObjectSet
    pub older : Memᴰ cos (but_last owned)
    pub own : ApplyConfig
    pub extracted : env.extract cos field_owner ≡ ok own
    pub archives : ac ≡ set_archived own
    pub owner_is : owner ≡ field_owner

  pub data IsSuperseding : Call → Type 0 where
    superseding :
        {ac : ApplyConfig} {owner : String}
        → Supersedes ac owner
        → IsSuperseding (apply_cos ac owner)

  pub set_archived-Supersedes :
      (latest cos : ClusterObjectSet) (ac : ApplyConfig)
      → IsSortedBy (ascending revision_of) owned
      → last_of owned ≡ some latest
      → is_available env.conditions latest ≡ true
      → Memᴰ cos (but_last owned)
      → env.extract cos field_owner ≡ ok ac
      → IsSuperseding (apply_cos (set_archived ac) field_owner)
  set_archived-Supersedes latest cos ac sorted is_last available older extracted =
      superseding (record {
        latest = latest;
        is_last = is_last;
        newest = last_of-newest owned latest sorted is_last;
        available = available;
        cos = cos;
        older = older;
        own = ac;
        extracted = extracted;
        archives = refl;
        owner_is = refl;
      })

  -- Of owned revisions in the order of their numbers: each call of archiving applies, as the
  -- controller, an archived lifecycle to an owned revision other than the last, and only if the last,
  -- which has the highest number of all, is available.
  pub archive_superseded-IsSuperseding :
      (h : History)
      → IsSortedBy (ascending revision_of) owned
      → Adds IsSuperseding h (archive_superseded env owned h).1
  archive_superseded-IsSuperseding h sorted =
      archive_superseded-All env IsSuperseding owned h (λ latest is_last available.
        All-imp
          (λ cos older ac x. set_archived-Supersedes latest cos ac sorted is_last available older x)
          (but_last owned) (All-members (but_last owned)))
