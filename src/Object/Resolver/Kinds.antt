-- ===== src/Object/Resolver/Kinds.antt =====
-- The kinds of the objects for which the accessor is asked.
use orb_operator.Base.{
  Bool, true, false, ◌||◌, List, [], ◌∷◌, ◌++◌, map, ◌≡◌, refl, sym, ap, ◌∙◌, subst, inl, inr,
  Bool-cases, Eq, ◌==◌, contains, All, All-imp, All-append, if◌then◌else◌,
}
use orb_operator.Object.{ResolvedObject, ResolvedPhase, Resolved, ObjectLib, GroupVersionKind}
use orb_operator.Object.Resolver.{GroupVersionKind_eq, new_kinds, new_kinds_of, managed_objects}

neither : (b c : Bool) → (if b then true else c) ≡ false → (b ≡ false) × (c ≡ false)
neither false c h = (refl, h)
neither true c h = absurd (cc h)

module _ {K : Type 0} ⦃e : Eq K⦄ where
  -- No key twice.
  abbrev pub IsDistinct : List K → Type 0
  IsDistinct [] = Unit
  IsDistinct (k ∷ ks) = (contains ks k ≡ false) × IsDistinct ks

  self_eq : (k : K) → (k == k) ≡ true
  self_eq k = (e.equals_iff k k).1 refl

  differs_sym : (j k : K) → (j == k) ≡ false → (k == j) ≡ false
  differs_sym j k q = elim (Bool-cases (k == j)) [
    | inl r ↦ absurd (cc (q, (e.equals_iff j k).1 (sym ((e.equals_iff k j).0 r))))
    | inr r ↦ r
  ]

  not_contained : (k : K) (ks : List K) → All (λ j. (k == j) ≡ false) ks → contains ks k ≡ false
  not_contained k [] h = refl
  not_contained k (j ∷ ks) h = rw (differs_sym k j h.0) (not_contained k ks h.1)

  contains-append :
      (xs ys : List K) (k : K) → contains (xs ++ ys) k ≡ (contains xs k || contains ys k)
  contains-append [] ys k = refl
  contains-append (x ∷ xs) ys k = elim (Bool-cases (x == k)) [
    | inl q ↦ rw q refl
    | inr q ↦ rw q (contains-append xs ys k)
  ]

  -- A key that is not in a list with another in front is neither.
  not_first :
      (j k : K) (ks : List K)
      → contains (j ∷ ks) k ≡ false
      → ((j == k) ≡ false) × (contains ks k ≡ false)
  not_first j k ks h = neither (j == k) (contains ks k) h

  IsDistinct-append :
      (xs ys : List K)
      → IsDistinct xs
      → IsDistinct ys
      → All (λ y. contains xs y ≡ false) ys
      → IsDistinct (xs ++ ys)
  IsDistinct-append [] ys dx dy apart = dy
  IsDistinct-append (x ∷ xs) ys dx dy apart = (
    contains-append xs ys x
        ∙ rw (dx.0, not_contained x ys (All-imp (λ y h. (not_first x y xs h).0) ys apart)) refl,
    IsDistinct-append xs ys dx.1 dy (All-imp (λ y h. (not_first x y xs h).1) ys apart),
  )

module _ {Obj GzipReader : Type 0} (lib : ObjectLib Obj GzipReader) where
  abbrev pub kinds_of : List Obj → List GroupVersionKind
  kinds_of = map lib.group_version_kind

  abbrev pub kind_of : ResolvedObject Obj → GroupVersionKind
  kind_of ro = lib.group_version_kind ro.obj

  -- What the inner loop makes of the kinds that were seen.
  record NewKinds (os : List (ResolvedObject Obj)) (seen : List GroupVersionKind)
      (r : List Obj × List GroupVersionKind) : Type 0 where
    seen_after :
        (g : GroupVersionKind) → contains r.1 g ≡ (contains seen g || contains (kinds_of r.0) g)
    covered : All (λ o. contains r.1 (kind_of o) ≡ true) os
    fresh : All (λ g. contains seen g ≡ false) (kinds_of r.0)
    distinct : IsDistinct (kinds_of r.0)

  or_false : (b : Bool) → b ≡ (b || false)
  or_false true = refl
  or_false false = refl

  moved : (b c d : Bool) → ((if b then true else c) || d) ≡ (c || (if b then true else d))
  moved true true d = refl
  moved true false d = refl
  moved false c d = refl

  new_kinds-NewKinds :
      (os : List (ResolvedObject Obj)) (seen : List GroupVersionKind)
      → NewKinds os seen (new_kinds lib os seen)
  unfolding new_kinds
  new_kinds-NewKinds [] seen = record {
    seen_after = λ g. or_false (contains seen g);
    covered = tt;
    fresh = tt;
    distinct = tt;
  }
  new_kinds-NewKinds (o ∷ os) seen = elim (Bool-cases (contains seen (kind_of o))) [
    | inl q ↦
        let ih = new_kinds-NewKinds os seen in
        rw q (record {
          seen_after = ih.seen_after;
          covered = (ih.seen_after (kind_of o) ∙ rw q refl, ih.covered);
          fresh = ih.fresh;
          distinct = ih.distinct;
        })
    | inr q ↦
        let ih = new_kinds-NewKinds os (kind_of o ∷ seen) in
        rw q (record {
          seen_after = λ g. ih.seen_after g ∙ moved (kind_of o == g) (contains seen g) _;
          covered = (ih.seen_after (kind_of o) ∙ rw (self_eq (kind_of o)) refl, ih.covered);
          fresh = (q, All-imp (λ g h. (not_first (kind_of o) g seen h).1) _ ih.fresh);
          distinct = (
            not_contained (kind_of o) _
                (All-imp (λ g h. (not_first (kind_of o) g seen h).0) _ ih.fresh),
            ih.distinct,
          );
        })
  ]

  -- What the outer loop makes of them.
  record Covers (ps : List (ResolvedPhase Obj)) (seen : List GroupVersionKind) (objs : List Obj)
      : Type 0 where
    covered :
        All
          (λ (p : ResolvedPhase Obj).
            All
              (λ o. (contains seen (kind_of o) || contains (kinds_of objs) (kind_of o)) ≡ true)
              p.objects)
          ps
    fresh : All (λ g. contains seen g ≡ false) (kinds_of objs)
    distinct : IsDistinct (kinds_of objs)

  kinds_of-append : (xs ys : List Obj) → kinds_of (xs ++ ys) ≡ kinds_of xs ++ kinds_of ys
  kinds_of-append [] ys = refl
  kinds_of-append (x ∷ xs) ys = ap (λ l. lib.group_version_kind x ∷ l) (kinds_of-append xs ys)

  regroup : (a b c : Bool) → ((a || b) || c) ≡ true → (a || (b || c)) ≡ true
  regroup true b c h = refl
  regroup false b c h = h

  or_left : (a b c : Bool) → (a || b) ≡ true → (a || (b || c)) ≡ true
  or_left true b c h = refl
  or_left false true c h = refl
  or_left false false c h = absurd (cc h)

  of_or_false : (a b : Bool) → (a || b) ≡ false → (a ≡ false) × (b ≡ false)
  of_or_false false b h = (refl, h)
  of_or_false true b h = absurd (cc h)

  kinds_of-either :
      (xs ys : List Obj) (g : GroupVersionKind)
      → contains (kinds_of (xs ++ ys)) g ≡ (contains (kinds_of xs) g || contains (kinds_of ys) g)
  kinds_of-either xs ys g =
      ap (λ l. contains l g) (kinds_of-append xs ys) ∙ contains-append (kinds_of xs) (kinds_of ys) g

  -- One phase before the others.
  Covers-cons :
      (p : ResolvedPhase Obj) (ps : List (ResolvedPhase Obj)) (seen : List GroupVersionKind)
      (r : List Obj × List GroupVersionKind) (rest : List Obj)
      → NewKinds p.objects seen r
      → Covers ps r.1 rest
      → Covers (p ∷ ps) seen (r.0 ++ rest)
  Covers-cons p ps seen r rest a b = record {
    covered = (
      All-imp
          (λ o h.
            ap (λ c. contains seen (kind_of o) || c) (kinds_of-either r.0 rest (kind_of o))
            ∙ or_left (contains seen (kind_of o)) _ _ (sym (a.seen_after (kind_of o)) ∙ h))
          p.objects a.covered,
      All-imp
          (λ (q : ResolvedPhase Obj) hs.
            All-imp
              (λ o h.
                ap (λ c. contains seen (kind_of o) || c) (kinds_of-either r.0 rest (kind_of o))
                ∙ regroup (contains seen (kind_of o)) _ _ (
                    ap (λ c. c || contains (kinds_of rest) (kind_of o))
                      (sym (a.seen_after (kind_of o)))
                    ∙ h))
              q.objects hs)
          ps b.covered,
    );
    fresh = subst (All (λ g. contains seen g ≡ false)) (sym (kinds_of-append r.0 rest)) (
        All-append _ (kinds_of r.0) (kinds_of rest) a.fresh (
          All-imp (λ g h. (of_or_false _ _ (sym (a.seen_after g) ∙ h)).0) (kinds_of rest) b.fresh));
    distinct = subst IsDistinct (sym (kinds_of-append r.0 rest)) (
        IsDistinct-append (kinds_of r.0) (kinds_of rest) a.distinct b.distinct (
          All-imp (λ g h. (of_or_false (contains seen g) _ (sym (a.seen_after g) ∙ h)).1)
            (kinds_of rest) b.fresh));
  }

  new_kinds_of-Covers :
      (ps : List (ResolvedPhase Obj)) (seen : List GroupVersionKind)
      → Covers ps seen (new_kinds_of lib ps seen)
  unfolding new_kinds_of
  new_kinds_of-Covers [] seen = record { covered = tt; fresh = tt; distinct = tt }
  new_kinds_of-Covers (p ∷ ps) seen =
      let r = new_kinds lib p.objects seen in
      Covers-cons p ps seen r (new_kinds_of lib ps r.1) (new_kinds-NewKinds p.objects seen)
        (new_kinds_of-Covers ps r.1)

  -- The objects that are managed have each kind once, and the kind of every resolved object.
  pub managed_objects-kinds :
      (res : Resolved Obj)
      → IsDistinct (kinds_of (managed_objects lib res))
        × All
            (λ (p : ResolvedPhase Obj).
              All (λ o. contains (kinds_of (managed_objects lib res)) (kind_of o) ≡ true) p.objects)
            res.phases
  unfolding managed_objects
  managed_objects-kinds res = let c = new_kinds_of-Covers res.phases [] in (c.distinct, c.covered)
