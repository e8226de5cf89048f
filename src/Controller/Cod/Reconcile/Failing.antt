-- ===== src/Controller/Cod/Reconcile/Failing.antt =====
-- Which error a reconcile returns.
use orb_operator.Base.{true, false, Option, none, some, ◌≡◌, refl, ◌⊎◌}
use orb_operator.Errors.{Error, join, wrap, Result, ok, err}
use orb_operator.Api.{ClusterObjectDeployment}
use orb_operator.Kube.{CtrlResult}
use orb_operator.Controller.Server.{History, update_cod_status}
use orb_operator.Controller.Cod.Env.{Env}
use orb_operator.Controller.Cod.Reconcile.{joined}

module _ (env : Env) where
  -- The status is as it was, or the server takes the new one.
  abbrev pub IsWritten : ClusterObjectDeployment → ClusterObjectDeployment → History → Type 0
  IsWritten existing updated h =
      (env.status_equal existing.status updated.status ≡ true)
      ⊎ ((env.status_equal existing.status updated.status ≡ false)
          × (env.server h (update_cod_status updated) ≡ none))

  -- The status has changed, and the server refuses the new one.
  abbrev pub IsUnwritten :
      ClusterObjectDeployment → ClusterObjectDeployment → History → Error → Type 0
  IsUnwritten existing updated h f =
      (env.status_equal existing.status updated.status ≡ false)
      × (env.server h (update_cod_status updated) ≡ some f)

  -- The error returned, if a step ended as it did and then the status was written or refused.
  pub data IsReturned (existing updated : ClusterObjectDeployment) (h : History)
      : Result CtrlResult → Option Error → Type 0 where
    succeeded :
        {result : CtrlResult}
        → IsWritten existing updated h
        → IsReturned existing updated h (ok result) none
    not_written :
        {result : CtrlResult} (f : Error)
        → IsUnwritten existing updated h f
        → IsReturned existing updated h (ok result) (some (wrap "updating status: " f))
    failed :
        (e : Error) → IsWritten existing updated h → IsReturned existing updated h (err e) (some e)
    failed_twice :
        (e f : Error)
        → IsUnwritten existing updated h f
        → IsReturned existing updated h (err e) (some (join e (wrap "updating status: " f)))

  joined-ok : (o : Option Error) → joined env o (ok tt) ≡ o
  unfolding joined
  joined-ok o = refl
