-- ===== src/Base/Members.antt =====
-- Membership in lists that loops filter, append to and sort.
use orb_operator.Base.{
  ◌≡◌, refl, ap, sym, ◌∙◌, inl, inr, Bool, true, List, [], ◌∷◌, ◌++◌, Memᴰ, filter, filter-cases,
  Bool-cases, subst, map,
}

module _ {ℓ} {A : Type ℓ} where
  pub filter-append :
      (p : A → Bool) (xs ys : List A) → filter p (xs ++ ys) ≡ filter p xs ++ filter p ys
  filter-append p [] ys = refl
  filter-append p (x ∷ xs) ys = elim (Bool-cases (p x)) [
    | inl e ↦ rw e (ap (λ r. x ∷ r) (filter-append p xs ys))
    | inr e ↦ rw e (filter-append p xs ys)
  ]

  kept :
      (p : A → Bool) (a x : A) (l xs : List A)
      → p x ≡ true
      → Memᴰ a (x ∷ l)
      → (Memᴰ a l → Memᴰ a xs × (p a ≡ true))
      → Memᴰ a (x ∷ xs) × (p a ≡ true)
  kept p a x l xs e (Memᴰ.head q) ih = (Memᴰ.head q, ap p q ∙ e)
  kept p a x l xs e (Memᴰ.tail m) ih = (Memᴰ.tail (ih m).0, (ih m).1)

  pub of_Memᴰ-filter :
      (p : A → Bool) (a : A) (xs : List A) → Memᴰ a (filter p xs) → Memᴰ a xs × (p a ≡ true)
  of_Memᴰ-filter p a [] m = elim m [ ]
  of_Memᴰ-filter p a (x ∷ xs) m = elim (filter-cases p x xs) [
    | inl (e, f) ↦ kept p a x (filter p xs) xs e (subst (Memᴰ a) f m) (of_Memᴰ-filter p a xs)
    | inr (e, f) ↦ let (i, h) = of_Memᴰ-filter p a xs (subst (Memᴰ a) f m) in (Memᴰ.tail i, h)
  ]

  pub Memᴰ-filter :
      (p : A → Bool) (a : A) (xs : List A) → Memᴰ a xs → p a ≡ true → Memᴰ a (filter p xs)
  Memᴰ-filter p a [] m h = elim m [ ]
  Memᴰ-filter p a (x ∷ xs) (Memᴰ.head q) h = rw (ap p (sym q) ∙ h) (Memᴰ.head q)
  Memᴰ-filter p a (x ∷ xs) (Memᴰ.tail m) h = elim (Bool-cases (p x)) [
    | inl e ↦ rw e (Memᴰ.tail (Memᴰ-filter p a xs m h))
    | inr e ↦ rw e (Memᴰ-filter p a xs m h)
  ]

pub Memᴰ-append {ℓ} : {A : Type ℓ} (a : A) (xs ys : List A) → Memᴰ a ys → Memᴰ a (xs ++ ys)
Memᴰ-append a [] ys m = m
Memᴰ-append a (x ∷ xs) ys m = Memᴰ.tail (Memᴰ-append a xs ys m)

pub Memᴰ-map {ℓ κ} :
    {A : Type ℓ} {B : Type κ} (f : A → B) (a : A) (xs : List A) → Memᴰ a xs → Memᴰ (f a) (map f xs)
Memᴰ-map f a [] m = elim m [ ]
Memᴰ-map f a (x ∷ xs) (Memᴰ.head q) = Memᴰ.head (ap f q)
Memᴰ-map f a (x ∷ xs) (Memᴰ.tail m) = Memᴰ.tail (Memᴰ-map f a xs m)
