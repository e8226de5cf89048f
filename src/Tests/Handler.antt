-- ===== src/Tests/Handler.antt =====
-- Runs of the controller of revisions.
use orb_operator.Base.{
  arith, eq_iff, ℕ, String, String_eq, ◌==◌, Bool, true, false, not, none, some, List, [], ◌∷◌,
  ◌++◌, ◌≡◌, refl, Bool-cases, inl, inr, contains, filter,
}
use orb_operator.Errors.{Result, ok, err, text}
use orb_operator.Api.{ClusterObjectSet, archived}
use orb_operator.ApplyConfig.{cluster_object_set}
use orb_operator.Kube.{FinalizerApi, RemovesFinalizer, CtrlResult, no_requeue}
use orb_operator.Boxcutter.{BoxRef, RevisionTeardownResult, RevisionResult}
use orb_operator.Assertions.{Prober}
use orb_operator.Object.{ObjectIdentity}
use orb_operator.Revision.Engine.{Engines}
use orb_operator.Revision.Engine.Effects.{Bounds}
use orb_operator.Controller.Server.{History, write_object}
use orb_operator.Controller.Server.Effects.{Adds, Adds-nothing, Adds-one, Adds-trans}
use orb_operator.Controller.Finalizer.{Poll, PollsUntil}
use orb_operator.Controller.Cos.Env.{Env, finalizer_key}
use orb_operator.Controller.Cos.Protocol.{Follows, start, IsWrite, is_write}
use orb_operator.Controller.Cos.Handler.{reconcile_cos}
use orb_operator.Controller.Cos.Handler.Work.{facts_of}
use orb_operator.Controller.Cos.Handler.Follows.{reconcile_cos-Follows}
use orb_operator.Status.Cos.Completion.Immutable.{HasUniqueNames}
use orb_operator.Tests.Objects.{lib}
use orb_operator.Tests.Fixtures.{conditions, cos, names_differ}

-- Finalizers as a set.
abbrev pub finalizers : FinalizerApi
finalizers = record {
  contains_finalizer = contains;
  remove_finalizer = λ fs f. filter (λ g. not (f == g)) fs;
}

abbrev a_ref : BoxRef
a_ref = record {
  group = "";
  version = "v1";
  kind = "ConfigMap";
  namespace = "app";
  name = "config";
}

abbrev torn_down : Bool → RevisionTeardownResult
torn_down complete = record {
  phases = [];
  active_phase_name = "";
  waiting_phase_names = [];
  is_complete = complete;
}

abbrev rolled_out : RevisionResult
rolled_out = record {
  validation_error = none;
  phases = [];
  in_transition = false;
  is_complete = true;
  has_progressed = false;
}

-- Each call of boxcutter writes one object.
abbrev pub engines_for :
    Bool → Engines History ObjectIdentity (Prober String) ClusterObjectSet Bool Bool
engines_for complete = record {
  revision_reconcile = λ rev o h. record {
    result = some rolled_out;
    error = none;
    cluster = h ++ (write_object a_ref ∷ []);
  };
  revision_teardown = λ rev h. record {
    result = some (torn_down complete);
    error = none;
    cluster = h ++ (write_object a_ref ∷ []);
  };
  phase_reconcile = λ number p o h. record {
    result = none;
    error = none;
    cluster = h ++ (write_object a_ref ∷ []);
  };
  for_phase = λ o name. o;
  pause = λ o. true;
  get = λ obj h. none;
}

pub engines_for-Bounds : (complete : Bool) → Bounds (engines_for complete) (Adds IsWrite)
engines_for-Bounds complete = record {
  nothing = Adds-nothing IsWrite;
  both = λ a b. Adds-trans IsWrite a b;
  of_reconcile = λ rev o h. Adds-one IsWrite h (write_object a_ref) is_write;
  of_teardown = λ rev h. Adds-one IsWrite h (write_object a_ref) is_write;
  of_phase = λ n p o h. Adds-one IsWrite h (write_object a_ref) is_write;
}

-- One attempt.
abbrev pub attempted : Result Bool → Result (Unit {0})
attempted (ok true) = ok tt
attempted (ok false) = err (text "timed out")
attempted (err e) = err e

abbrev pub poll_once : Poll
poll_once condition = attempted (condition 0)

abbrev pub env : Bool → Env ObjectIdentity (List ℕ) String Bool Bool
env complete = record {
  server = λ h call. none;
  get = λ h name. ok none;
  get_later = λ h name n. ok none;
  list_group = λ h group. ok [];
  get_slice = λ h name. err (text "not found");
  now = λ h. 100;
  poll = poll_once;
  extract = λ c owner. ok (cluster_object_set c.metadata.name);
  conditions = conditions;
  finalizers = finalizers;
  fields_json = record { unmarshal = λ raw. err (text "no JSON"); marshal = λ fields. ok [] };
  get_controller_of = λ m. none;
  status_equal = λ a b. false;
  objects = lib;
  new_cel_probe = λ expression message. err (text "syntax error");
  new_revision_engine = λ o. ok tt;
  new_phase_engine = λ o. ok tt;
  engines = λ o. engines_for complete;
  aggregate = true;
}

-- An archived revision that has the finalizer.
abbrev pub going : ClusterObjectSet
going =
    let c = cos "app-1" 1 archived [] in
    record c { metadata = record c.metadata { finalizers = finalizer_key ∷ [] } }

pub finalizers-RemovesFinalizer : RemovesFinalizer finalizers
finalizers-RemovesFinalizer [] f g = elim (Bool-cases (f == g)) [
  | inl q ↦ rw q refl
  | inr q ↦ rw q refl
]
finalizers-RemovesFinalizer (h ∷ fs) f g =
    ground (arith, finalizers-RemovesFinalizer fs f g, eq_iff f h, eq_iff f g, eq_iff h g)

attempted-ok : (r : Result Bool) → attempted r ≡ ok tt → r ≡ ok true
attempted-ok (ok true) q = refl
attempted-ok (ok false) q = absurd (cc q)
attempted-ok (err e) q = absurd (cc q)

pub poll_once-PollsUntil : PollsUntil poll_once
poll_once-PollsUntil condition q = (0, attempted-ok (condition 0) q)

-- What a run on the archived revision leaves.
abbrev finished : Result CtrlResult × History
finished = elim (reconcile_cos (env true) going []) [ none ↦ (ok no_requeue, []) | some r ↦ r ]

reconcile_cos-finished : reconcile_cos (env true) going [] ≡ some finished
unfolding reconcile_cos
reconcile_cos-finished = refl

pub going-HasUniqueNames : HasUniqueNames going.status.observed_phases
going-HasUniqueNames = ((names_differ "crds" "deploy" refl, tt), (tt, tt))

reconcile_cos-Follows_example : Follows (facts_of (env true) going) start [] finished.1
reconcile_cos-Follows_example =
    reconcile_cos-Follows (env true) finalizers-RemovesFinalizer (λ o. engines_for-Bounds true)
      going [] finished going-HasUniqueNames reconcile_cos-finished
