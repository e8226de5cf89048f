-- ===== src/Base/Sort.antt =====
-- `slices.SortFunc` by a total order. Go's sort promises a sorted permutation and nothing of the
-- order of equal items; this one keeps it.
use mathlib.Core.List.{Perm}
use mathlib.Core.List.Perm
use orb_operator.Base.{
  ℕ, ◌≡◌, Bool, true, false, List, [], ◌∷◌, arith, leb, inl, inr, if◌then◌else◌, All, All-imp,
  Bool-cases, Memᴰ, filter,
}

module _ {ℓ} {A : Type ℓ} (before : A → A → Bool) where
  insert_sorted : A → List A → List A
  insert_sorted x [] = x ∷ []
  insert_sorted x (y ∷ ys) =
      let later = y ∷ insert_sorted x ys in if before x y then x ∷ y ∷ ys else later

  unfoldable pub sort_by : List A → List A
  unfolding insert_sorted
  sort_by [] = []
  sort_by (x ∷ xs) = insert_sorted x (sort_by xs)

  abbrev pub IsSortedBy : List A → Type 0
  IsSortedBy [] = Unit
  IsSortedBy (x ∷ xs) = All (λ y. before x y ≡ true) xs × IsSortedBy xs

  pub record IsTotalOrder : Type ℓ where
    pub total : (x y : A) → before x y ≡ false → before y x ≡ true
    pub trans : (x y z : A) → before x y ≡ true → before y z ≡ true → before x z ≡ true

module _ {ℓ} {A : Type ℓ} (before : A → A → Bool) (p : A → Bool) where
  All-filter {κ} : (P : A → Type κ) (xs : List A) → All P xs → All P (filter p xs)
  All-filter P [] h = tt
  All-filter P (x ∷ xs) h = elim (Bool-cases (p x)) [
    | inl e ↦ rw e (h.0, All-filter P xs h.1)
    | inr e ↦ rw e (All-filter P xs h.1)
  ]

  pub filter-IsSortedBy : (xs : List A) → IsSortedBy before xs → IsSortedBy before (filter p xs)
  filter-IsSortedBy [] h = tt
  filter-IsSortedBy (x ∷ xs) h = elim (Bool-cases (p x)) [
    | inl e ↦ rw e (All-filter (λ y. before x y ≡ true) xs h.0, filter-IsSortedBy xs h.1)
    | inr e ↦ rw e (filter-IsSortedBy xs h.1)
  ]

-- The two orders that the operator sorts by: a number, ascending and descending.
module _ {ℓ} {A : Type ℓ} (key : A → ℕ) where
  abbrev pub ascending : A → A → Bool
  ascending x y = leb (key x) (key y)

  abbrev pub descending : A → A → Bool
  descending x y = leb (key y) (key x)

  pub ascending-IsTotalOrder : IsTotalOrder ascending
  ascending-IsTotalOrder = record {
    total = λ x y h. ground arith;
    trans = λ x y z h k. ground arith;
  }

  pub descending-IsTotalOrder : IsTotalOrder descending
  descending-IsTotalOrder = record {
    total = λ x y h. ground arith;
    trans = λ x y z h k. ground arith;
  }

module _ {ℓ} {A : Type ℓ} (before : A → A → Bool) where
  insert_sorted-perm : (x : A) (ys : List A) → Perm (insert_sorted before x ys) (x ∷ ys)
  unfolding insert_sorted
  insert_sorted-perm x [] = Perm.refl _
  insert_sorted-perm x (y ∷ ys) = elim (Bool-cases (before x y)) [
    | inl e ↦ rw e (Perm.refl _)
    | inr e ↦ rw e (Perm.trans (Perm.cons y (insert_sorted-perm x ys)) (Perm.swap x y ys))
  ]

  pub sort_by-perm : (xs : List A) → Perm (sort_by before xs) xs
  unfolding sort_by
  sort_by-perm [] = Perm.refl []
  sort_by-perm (x ∷ xs) =
      Perm.trans (insert_sorted-perm x (sort_by before xs)) (Perm.cons x (sort_by-perm xs))

  All-insert_sorted {κ} :
      (P : A → Type κ) (x : A) (ys : List A) → P x → All P ys → All P (insert_sorted before x ys)
  unfolding insert_sorted
  All-insert_sorted P x [] px h = (px, tt)
  All-insert_sorted P x (y ∷ ys) px h = elim (Bool-cases (before x y)) [
    | inl e ↦ rw e (px, h)
    | inr e ↦ rw e (h.0, All-insert_sorted P x ys px h.1)
  ]

  -- What holds of all items holds of the sorted items.
  pub All-sort_by {κ} : (P : A → Type κ) (xs : List A) → All P xs → All P (sort_by before xs)
  unfolding sort_by
  All-sort_by P [] h = tt
  All-sort_by P (x ∷ xs) h = All-insert_sorted P x (sort_by before xs) h.0 (All-sort_by P xs h.1)

module _ {ℓ} {A : Type ℓ} (before : A → A → Bool) (order : IsTotalOrder before) where
  insert_sorted-IsSortedBy :
      (x : A) (ys : List A) → IsSortedBy before ys → IsSortedBy before (insert_sorted before x ys)
  unfolding insert_sorted
  insert_sorted-IsSortedBy x [] h = (tt, tt)
  insert_sorted-IsSortedBy x (y ∷ ys) h = elim (Bool-cases (before x y)) [
    | inl e ↦ rw (e, ◌≡◌) ((e, All-imp (λ z q. order.trans x y z e q) ys h.0), h)
    | inr e ↦ rw e (
      All-insert_sorted before (λ z. before y z ≡ true) x ys (order.total x y e) h.0,
      insert_sorted-IsSortedBy x ys h.1,
    )
  ]

  pub sort_by-IsSortedBy : (xs : List A) → IsSortedBy before (sort_by before xs)
  unfolding sort_by
  sort_by-IsSortedBy [] = tt
  sort_by-IsSortedBy (x ∷ xs) =
      insert_sorted-IsSortedBy x (sort_by before xs) (sort_by-IsSortedBy xs)

module _ {ℓ} {A : Type ℓ} (before : A → A → Bool) where
  of_Memᴰ-insert_sorted :
      (a x : A) (ys : List A) → Memᴰ a (insert_sorted before x ys) → Memᴰ a (x ∷ ys)
  unfolding insert_sorted
  of_Memᴰ-insert_sorted a x [] m = m
  of_Memᴰ-insert_sorted a x (y ∷ ys) m = elim (Bool-cases (before x y)) [
    | inl e ↦ rw e at m
    | inr e ↦ under (rw e at m) (of_Memᴰ-insert_sorted a x ys)
  ]
    where
      under :
          Memᴰ a (y ∷ insert_sorted before x ys)
          → (Memᴰ a (insert_sorted before x ys) → Memᴰ a (x ∷ ys))
          → Memᴰ a (x ∷ y ∷ ys)
      under (Memᴰ.head q) ih = Memᴰ.tail (Memᴰ.head q)
      under (Memᴰ.tail n) ih = past (ih n)
        where
          past : Memᴰ a (x ∷ ys) → Memᴰ a (x ∷ y ∷ ys)
          past (Memᴰ.head q) = Memᴰ.head q
          past (Memᴰ.tail k) = Memᴰ.tail (Memᴰ.tail k)

  Memᴰ-insert_sorted :
      (a x : A) (ys : List A) → Memᴰ a (x ∷ ys) → Memᴰ a (insert_sorted before x ys)
  unfolding insert_sorted
  Memᴰ-insert_sorted a x [] m = m
  Memᴰ-insert_sorted a x (y ∷ ys) m = elim (Bool-cases (before x y)) [
    | inl e ↦ rw e m
    | inr e ↦ rw e (place m (Memᴰ-insert_sorted a x ys))
  ]
    where
      place :
          Memᴰ a (x ∷ y ∷ ys)
          → (Memᴰ a (x ∷ ys) → Memᴰ a (insert_sorted before x ys))
          → Memᴰ a (y ∷ insert_sorted before x ys)
      place (Memᴰ.head q) ih = Memᴰ.tail (ih (Memᴰ.head q))
      place (Memᴰ.tail (Memᴰ.head q)) ih = Memᴰ.head q
      place (Memᴰ.tail (Memᴰ.tail n)) ih = Memᴰ.tail (ih (Memᴰ.tail n))

  pub of_Memᴰ-sort_by : (a : A) (xs : List A) → Memᴰ a (sort_by before xs) → Memᴰ a xs
  unfolding sort_by
  of_Memᴰ-sort_by a [] m = m
  of_Memᴰ-sort_by a (x ∷ xs) m =
      cons (of_Memᴰ-insert_sorted a x (sort_by before xs) m) (of_Memᴰ-sort_by a xs)
    where
      cons :
          Memᴰ a (x ∷ sort_by before xs)
          → (Memᴰ a (sort_by before xs) → Memᴰ a xs)
          → Memᴰ a (x ∷ xs)
      cons (Memᴰ.head q) ih = Memᴰ.head q
      cons (Memᴰ.tail n) ih = Memᴰ.tail (ih n)

  pub Memᴰ-sort_by : (a : A) (xs : List A) → Memᴰ a xs → Memᴰ a (sort_by before xs)
  unfolding sort_by
  Memᴰ-sort_by a [] m = elim m [ ]
  Memᴰ-sort_by a (x ∷ xs) (Memᴰ.head q) = Memᴰ-insert_sorted a x (sort_by before xs) (Memᴰ.head q)
  Memᴰ-sort_by a (x ∷ xs) (Memᴰ.tail n) =
      Memᴰ-insert_sorted a x (sort_by before xs) (Memᴰ.tail (Memᴰ-sort_by a xs n))
