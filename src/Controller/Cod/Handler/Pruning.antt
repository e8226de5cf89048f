-- ===== src/Controller/Cod/Handler/Pruning.antt =====
-- Which archived revisions a deployment deletes.
use mathlib.Core.List.{Perm, append-nil, append_assoc}
use orb_operator.Base.{
  ℕ, zero, suc, ◌-◌, ◌≤◌, ◌≡◌, refl, List, [], ◌∷◌, ◌++◌, map, All, arith, take, drop, length, sym,
  Option, none, subst, ap, All-imp, leb→le, ◌∙◌, filter, All-drop, leb, true, take-append-drop, ◌<◌,
  length-drop, length-take, String, some,
}
use orb_operator.Api.{ClusterObjectSet, ClusterObjectDeployment}
use orb_operator.Errors.{ok, Result, Error}
use orb_operator.Controller.Server.{
  delete_cos, History, answer, wrap_result, wrapping, perform, M, ◌>>◌,
}
use orb_operator.Controller.Cod.Handler.{delete_all, prunable, prune_archived}
use orb_operator.Controller.Cod.Env.{Env, revision_of, limit_of}
use orb_operator.Base.Sort.{
  IsSortedBy, ascending, sort_by-perm, sort_by-IsSortedBy, ascending-IsTotalOrder,
}
use orb_operator.Revision.Chain.{is_archived}

-- The calls of the loop: deletions in order, up to the first that fails.
pub record Deletes (coss : List ClusterObjectSet) (h : History) (r : Result (Unit {0}) × History)
    : Type 0 where
  count : ℕ
  history : r.1 ≡ h ++ map delete_cos (take count coss)
  all : r.0 ≡ ok tt → take count coss ≡ coss

Deletes-cons :
    (cos : ClusterObjectSet) (coss : List ClusterObjectSet) (h : History)
    {r : Result (Unit {0}) × History}
    → Deletes coss (h ++ (delete_cos cos ∷ [])) r
    → Deletes (cos ∷ coss) h r
Deletes-cons cos coss h d = record {
  count = suc d.count;
  history = d.history ∙ append_assoc h (delete_cos cos ∷ []) (map delete_cos (take d.count coss));
  all = λ e. ap (λ xs. cos ∷ xs) (d.all e);
}

-- One turn of the loop, by the server's answer.
Deletes-step :
    (a : Option Error) (text : String) (cos : ClusterObjectSet) (coss : List ClusterObjectSet)
    (h : History) (rest : M (Unit {0}))
    → Deletes coss (h ++ (delete_cos cos ∷ [])) (rest (h ++ (delete_cos cos ∷ [])))
    → Deletes
        (cos ∷ coss)
        h
        (((λ k. (wrap_result text (answer a), k ++ (delete_cos cos ∷ []))) >> rest) h)
unfolding answer wrap_result
Deletes-step none text cos coss h rest d = Deletes-cons cos coss h d
Deletes-step (some e) text cos coss h rest d = record {
  count = 1;
  history = refl;
  all = λ q. absurd (cc q);
}

module _ (env : Env) where
  delete_all-Deletes :
      (coss : List ClusterObjectSet) (h : History) → Deletes coss h (delete_all env coss h)
  unfolding delete_all wrapping perform
  delete_all-Deletes [] h = record { count = 0; history = sym (append-nil h); all = λ e. refl }
  delete_all-Deletes (cos ∷ coss) h =
      Deletes-step (env.server h (delete_cos cos)) _ cos coss h (delete_all env coss)
        (delete_all-Deletes coss (h ++ (delete_cos cos ∷ [])))

-- A run that deletes the oldest revisions of a list, and no more than needed to come to a limit.
pub record Prunes (limit : ℕ) (coss : List ClusterObjectSet) (h : History)
    (r : Result (Unit {0}) × History) : Type 0 where
  deleted : List ClusterObjectSet
  kept : List ClusterObjectSet
  these : Perm (deleted ++ kept) (filter is_archived coss)
  enough : length kept ≤ limit
  needed : 0 < length deleted → length kept ≡ limit
  ordered : IsSortedBy (ascending revision_of) deleted
  oldest : All (λ d. All (λ k. revision_of d ≤ revision_of k) kept) deleted
  calls : Deletes deleted h r

pub All-take :
    (P : ClusterObjectSet → Type 0) (n : ℕ) (xs : List ClusterObjectSet)
    → All P xs
    → All P (take n xs)
All-take P zero xs h = tt
All-take P (suc n) [] h = tt
All-take P (suc n) (x ∷ xs) h = (h.0, All-take P n xs h.1)

take-oldest :
    (n : ℕ) (xs : List ClusterObjectSet)
    → IsSortedBy (ascending revision_of) xs
    → All (λ d. All (λ k. revision_of d ≤ revision_of k) (drop n xs)) (take n xs)
take-oldest zero xs s = tt
take-oldest (suc n) [] s = tt
take-oldest (suc n) (x ∷ xs) s = (
  All-imp (λ y e. leb→le (revision_of x) (revision_of y) e) (drop n xs)
      (All-drop (λ y. leb (revision_of x) (revision_of y) ≡ true) n xs s.0),
  take-oldest n xs s.1,
)

take-IsSortedBy :
    (n : ℕ) (xs : List ClusterObjectSet)
    → IsSortedBy (ascending revision_of) xs
    → IsSortedBy (ascending revision_of) (take n xs)
take-IsSortedBy zero xs s = tt
take-IsSortedBy (suc n) [] s = tt
take-IsSortedBy (suc n) (x ∷ xs) s =
    (All-take (λ y. leb (revision_of x) (revision_of y) ≡ true) n xs s.0, take-IsSortedBy n xs s.1)

-- Pruning deletes archived revisions only, in the order of their numbers and all that it means to
-- delete unless it fails. These and those it keeps are all the archived ones; at most the limit is
-- kept, exactly the limit if anything is to be deleted; and no deleted one has a higher number than a
-- kept one.
pub prune_archived-Prunes :
    (env : Env) (cod : ClusterObjectDeployment) (coss : List ClusterObjectSet) (h : History)
    → Prunes (limit_of cod.spec.revision_history_limit) coss h (prune_archived env cod coss h)
unfolding prune_archived
prune_archived-Prunes env cod coss h =
    let sorted = prunable env coss in
    let n = length sorted - limit_of cod.spec.revision_history_limit in
    record {
      deleted = take n sorted;
      kept = drop n sorted;
      these =
          subst (λ l. Perm l (filter is_archived coss)) (sym (take-append-drop n sorted))
            (sort_by-perm (ascending revision_of) (filter is_archived coss));
      enough = omega (arith, length-drop n sorted);
      needed = λ p. omega (arith, length-drop n sorted, length-take n sorted);
      ordered = take-IsSortedBy n sorted (
          sort_by-IsSortedBy (ascending revision_of) (ascending-IsTotalOrder revision_of)
            (filter is_archived coss));
      oldest = take-oldest n sorted (
          sort_by-IsSortedBy (ascending revision_of) (ascending-IsTotalOrder revision_of)
            (filter is_archived coss));
      calls = delete_all-Deletes env (take n sorted) h;
    }
