-- ===== src/Revision/Chain/Order.antt =====
-- What a chain is, independently of the loop that builds it.
use mathlib.Core.List.{append-nil, append_assoc}
use orb_operator.Base.{
  ◌≡◌, refl, ap, ◌∙◌, Bool, true, not, ◌&&◌, Option, none, List, [], ◌∷◌, ◌++◌, filter, to_list,
  arith, inl, inr, Bool-cases, sym, subst, All-filter, Memᴰ, ◌↔◌,
}
use orb_operator.Base.Sort.{
  sort_by, descending, descending-IsTotalOrder, IsSortedBy, sort_by-IsSortedBy, of_Memᴰ-sort_by,
  Memᴰ-sort_by,
}
use orb_operator.Api.{ClusterObjectSet, ObjectMeta, OwnerReference}
use orb_operator.Revision.Chain.{
  same_owner, filter_by_owner, Chain, is_deleted, is_archived, add_member, add_members, build_chain,
  revision_of, empty_chain, is_other, siblings_of,
}
use orb_operator.Base.Members.{filter-append, of_Memᴰ-filter, Memᴰ-filter}

abbrev pub is_active : ClusterObjectSet → Bool
is_active m = not (is_deleted m) && not (is_archived m)

abbrev pub is_kept_archived : ClusterObjectSet → Bool
is_kept_archived m = not (is_deleted m) && is_archived m

-- The active members of a chain, the newest first.
abbrev pub actives : Chain → List ClusterObjectSet
actives ch = to_list ch.latest_active ++ ch.predecessors

-- There are predecessors only of a latest revision.
abbrev pub HasLatest : Chain → Type 0
HasLatest ch = ch.latest_active ≡ none → ch.predecessors ≡ []

record Extends (ms : List ClusterObjectSet) (c d : Chain) : Type 0 where
  latest : HasLatest d
  active : actives d ≡ actives c ++ filter is_active ms
  archived : d.archived ≡ c.archived ++ filter is_kept_archived ms
  deleted : d.deleted ≡ c.deleted ++ filter is_deleted ms

add_member-Extends :
    (m : ClusterObjectSet) (c : Chain) → HasLatest c → Extends (m ∷ []) c (add_member m c)
unfolding add_member
add_member-Extends m c h = record {
  latest = ground (arith, h);
  active = ground (arith, h, append-nil (actives c), append-nil c.predecessors);
  archived = ground (arith, append-nil c.archived);
  deleted = ground (arith, append-nil c.deleted);
}

filter-cons :
    (p : ClusterObjectSet → Bool) (m : ClusterObjectSet) (ms : List ClusterObjectSet)
    → filter p (m ∷ ms) ≡ filter p (m ∷ []) ++ filter p ms
filter-cons p m ms = ground arith

-- Two stretches of the loop.
glue :
    (p : ClusterObjectSet → Bool) (m : ClusterObjectSet) (ms a b c : List ClusterObjectSet)
    → b ≡ a ++ filter p (m ∷ [])
    → c ≡ b ++ filter p ms
    → c ≡ a ++ filter p (m ∷ ms)
glue p m ms a b c h k =
    k
    ∙ ap (λ l. l ++ filter p ms) h
    ∙ append_assoc a (filter p (m ∷ [])) (filter p ms)
    ∙ ap (λ l. a ++ l) (sym (filter-cons p m ms))

add_members-Extends :
    (ms : List ClusterObjectSet) (c : Chain) → HasLatest c → Extends ms c (add_members ms c)
unfolding add_members
add_members-Extends [] c h = record {
  latest = h;
  active = sym (append-nil (actives c));
  archived = sym (append-nil c.archived);
  deleted = sym (append-nil c.deleted);
}
add_members-Extends (m ∷ ms) c h =
    let s = add_member-Extends m c h in
    let r = add_members-Extends ms (add_member m c) s.latest in
    record {
      latest = r.latest;
      active = glue is_active m ms (actives c) (actives (add_member m c)) _ s.active r.active;
      archived =
          glue is_kept_archived m ms c.archived (add_member m c).archived _ s.archived r.archived;
      deleted = glue is_deleted m ms c.deleted (add_member m c).deleted _ s.deleted r.deleted;
    }

-- The members, the newest revision first.
abbrev pub newest_first : List ClusterObjectSet → List ClusterObjectSet
newest_first = sort_by (descending revision_of)

-- A chain is its members, sorted by descending revision and split: those that are being deleted;
-- the archived others; and the active rest, of which the first is the latest.
pub build_chain_lem :
    (ms : List ClusterObjectSet)
    → (actives (build_chain ms) ≡ filter is_active (newest_first ms))
      × ((build_chain ms).archived ≡ filter is_kept_archived (newest_first ms))
      × ((build_chain ms).deleted ≡ filter is_deleted (newest_first ms))
      × HasLatest (build_chain ms)
unfolding build_chain
build_chain_lem ms =
    let r = add_members-Extends (newest_first ms) empty_chain (λ e. refl) in
    (r.active, r.archived, r.deleted, r.latest)

IsSortedBy-filter :
    (p : ClusterObjectSet → Bool) (ms : List ClusterObjectSet)
    → IsSortedBy (descending revision_of) ms
    → IsSortedBy (descending revision_of) (filter p ms)
IsSortedBy-filter p [] h = tt
IsSortedBy-filter p (m ∷ ms) h = elim (Bool-cases (p m)) [
  | inl e ↦ rw e (All-filter _ p ms h.0, IsSortedBy-filter p ms h.1)
  | inr e ↦ rw e (IsSortedBy-filter p ms h.1)
]

-- The active members of a chain are sorted by descending revision: no predecessor has a higher
-- revision than the latest.
pub build_chain-IsSortedBy :
    (ms : List ClusterObjectSet) → IsSortedBy (descending revision_of) (actives (build_chain ms))
build_chain-IsSortedBy ms =
    subst (IsSortedBy (descending revision_of)) (sym (build_chain_lem ms).0) (
      IsSortedBy-filter is_active (newest_first ms)
        (sort_by-IsSortedBy (descending revision_of) (descending-IsTotalOrder revision_of) ms))

siblings_of-eq-filter :
    (ms : List ClusterObjectSet) (cos : ClusterObjectSet)
    → siblings_of (build_chain ms) cos ≡ filter (is_other cos) (filter is_active (newest_first ms))
unfolding siblings_of
siblings_of-eq-filter ms cos =
    sym (
      filter-append (is_other cos) (to_list (build_chain ms).latest_active)
        (build_chain ms).predecessors)
    ∙ ap (filter (is_other cos)) (build_chain_lem ms).0

-- The siblings of a revision among the listed revisions of its group are those of the same
-- controlling owner that are neither archived nor being deleted, and have another name.
pub siblings_iff :
    (get_controller_of : ObjectMeta → Option OwnerReference) (group : List ClusterObjectSet)
    (cos m : ClusterObjectSet)
    → Memᴰ m (siblings_of (build_chain (filter_by_owner get_controller_of group cos)) cos) ↔ (
        Memᴰ m group
        × (same_owner get_controller_of cos m ≡ true)
        × (is_active m ≡ true)
        × (is_other cos m ≡ true))
unfolding filter_by_owner
siblings_iff get_controller_of group cos m =
    let owned = filter (same_owner get_controller_of cos) group in
    (
      λ i.
          let (j, other) =
            of_Memᴰ-filter (is_other cos) m _
              (subst (Memᴰ m) (siblings_of-eq-filter owned cos) i) in
          let (k, active) = of_Memᴰ-filter is_active m (newest_first owned) j in
          let (l, same) =
            of_Memᴰ-filter (same_owner get_controller_of cos) m group
              (of_Memᴰ-sort_by (descending revision_of) m owned k) in
          (l, same, active, other),
      λ (l, same, active, other). subst (Memᴰ m) (sym (siblings_of-eq-filter owned cos)) (
          Memᴰ-filter (is_other cos) m _
            (Memᴰ-filter is_active m (newest_first owned)
              (Memᴰ-sort_by (descending revision_of) m owned
                (Memᴰ-filter (same_owner get_controller_of cos) m group l same))
              active)
            other),
    )
