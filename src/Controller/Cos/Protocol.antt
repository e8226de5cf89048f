-- ===== src/Controller/Cos/Protocol.antt =====
-- The order of calls in one run of the handler of a revision, apart from the code: a finalizer is
-- taken before any object is touched, and given back only at the end of a teardown.
use mathlib.Core.List.{append-nil, append_assoc}
use orb_operator.Base.{
  String, Bool, true, false, List, [], ◌∷◌, ◌++◌, ◌≡◌, refl, sym, subst, Memᴰ, All,
}
use orb_operator.Boxcutter.{BoxRef}
use orb_operator.Api.{ClusterObjectSet, ClusterObjectSetStatus}
use orb_operator.Api.Rules.{IsAllowedChange}
use orb_operator.ApplyConfig.{ApplyConfig}
use orb_operator.Controller.Server.{
  Call, apply_cos, update_cos_status, patch_cos, get_accessor, free_accessor, write_object, History,
}
use orb_operator.Controller.Server.Effects.{Adds}
use orb_operator.Controller.Cos.Env.{finalizer_key}
use orb_operator.Object.{GroupVersionKind}

-- What the handler reads of the revision: whether it has the finalizer, whether it is deleted or
-- archived, and whether its objects are to be left alone. `holds` tests finalizers for that of the
-- controller, and `before` is the status.
pub record Facts : Type 0 where
  pub held : Bool
  pub going : Bool
  pub orphaned : Bool
  pub holds : List String → Bool
  pub before : ClusterObjectSetStatus

pub data Stage : Type 0 where
  start : Stage
  opened : Stage
  reported : Stage
  freed : Stage
  done : Stage

-- The calls that each stage allows.
pub data Move (f : Facts) : Stage → Call → Stage → Type 0 where
  hold :
      {ac : ApplyConfig} {owner : String}
      → f.held ≡ false
      → f.going ≡ false
      → Memᴰ finalizer_key ac.finalizers
      → Move f start (apply_cos ac owner) done
  open_accessor :
      {cos : ClusterObjectSet} {kinds : List GroupVersionKind}
      → f.held ≡ true
      → Move f start (get_accessor cos kinds) opened
  write : {ref : BoxRef} → Move f opened (write_object ref) opened
  report_unopened :
      {cos : ClusterObjectSet}
      → f.held ≡ true
      → IsAllowedChange f.before cos.status
      → Move f start (update_cos_status cos) reported
  report :
      {cos : ClusterObjectSet}
      → IsAllowedChange f.before cos.status
      → Move f opened (update_cos_status cos) reported
  free_unreported :
      {cos : ClusterObjectSet} → f.going ≡ true → Move f opened (free_accessor cos) freed
  free : {cos : ClusterObjectSet} → f.going ≡ true → Move f reported (free_accessor cos) freed
  free_orphaned :
      {cos : ClusterObjectSet}
      → f.held ≡ true
      → f.going ≡ true
      → f.orphaned ≡ true
      → Move f start (free_accessor cos) freed
  give_back :
      {before cos : ClusterObjectSet}
      → f.holds cos.metadata.finalizers ≡ false
      → Move f freed (patch_cos before cos) done

-- A run from one stage and history to another.
pub data Run (f : Facts) : Stage → History → Stage → History → Type 0 where
  stay : {s : Stage} {h : History} → Run f s h s h
  call :
      {s s' s'' : Stage} {h h' h'' : History} {c : Call}
      → Run f s h s' h'
      → Move f s' c s''
      → h'' ≡ h' ++ (c ∷ [])
      → Run f s h s'' h''

-- A run that ends in some stage.
abbrev pub Follows : Facts → Stage → History → History → Type 0
Follows f s h h' = (s' : Stage) × Run f s h s' h'

pub Run-trans :
    {f : Facts} {s s' s'' : Stage} {h h' h'' : History}
    → Run f s h s' h'
    → Run f s' h' s'' h''
    → Run f s h s'' h''
Run-trans r Run.stay = r
Run-trans r (Run.call q m e) = Run.call (Run-trans r q) m e

pub Run-one :
    {f : Facts} {s s' : Stage} (h : History) {c : Call}
    → Move f s c s'
    → Run f s h s' (h ++ (c ∷ []))
Run-one h m = Run.call Run.stay m refl

-- The calls of boxcutter.
pub data IsWrite : Call → Type 0 where
  is_write : {ref : BoxRef} → IsWrite (write_object ref)

Run-writes :
    {f : Facts} (h : History) (calls : List Call)
    → All IsWrite calls
    → Run f opened h opened (h ++ calls)
Run-writes {f} h [] _ = subst (λ k. Run f opened h opened k) (sym (append-nil h)) Run.stay
Run-writes {f} h (c ∷ cs) (IsWrite.is_write, ws) =
    subst (λ k. Run f opened h opened k) (append_assoc h (c ∷ []) cs)
      (Run-trans (Run-one h Move.write) (Run-writes (h ++ (c ∷ [])) cs ws))

pub Adds-Run : {f : Facts} {h h' : History} → Adds IsWrite h h' → Run f opened h opened h'
Adds-Run {f} {h} a =
    subst (λ k. Run f opened h opened k) (sym a.history) (Run-writes h a.calls a.all)
