-- ===== src/Admission/Finalizers.antt =====
-- The policy cos-orphan-finalizer-ordering of deploy/lib/api.libsonnet, on the finalizers of a
-- revision before and after an update.
use orb_operator.Base.{String, String_eq, Bool, not, ◌&&◌, List, ◌≡◌, contains}
use orb_operator.Kube.{FinalizerApi}
use orb_operator.Controller.Cos.Env.{finalizer_key}

unfoldable pub is_ordered_removal : List String → List String → Bool
is_ordered_removal old new =
    not (contains old "orphan" && not (contains new "orphan") && contains new finalizer_key)

-- A finalizer is found if it is in the list.
abbrev pub FindsFinalizer : FinalizerApi → Type 0
FindsFinalizer api = (fs : List String) (f : String) → api.contains_finalizer fs f ≡ contains fs f
