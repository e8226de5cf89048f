-- ===== src/Admission/Named.antt =====
-- The names of revisions are labels.
use text.Mathlib.TextLemmas.{nil-append, cons-append}
use Prim.Native.Char.{code}
use orb_operator.Base.{
  ℕ, zero, suc, ◌/◌, ◌%◌, ◌^◌, ◌≤◌, ◌<◌, String, ◌<>◌, ◌≡◌, refl, ap, ◌∙◌, Bool, true, false, ◌&&◌,
  arith, ltb, nat_eq, if-elim,
}
use orb_operator.Api.{ClusterObjectDeployment}
use orb_operator.Status.Cos.Messages.{rune_count}
use orb_operator.Status.Cos.Messages.Bounds.{rune_count-append}
use orb_operator.Template.{digit, decimal_from, decimal, revision_name}
use orb_operator.Admission.Patterns.{closes, is_label, is_lower, is_lower_alnum, is_label_inner}

abbrev label_closes : Bool → String → Bool
label_closes = closes is_label_inner is_lower_alnum

-- What holds of all ten digits.
digit-elim :
    (P : String → Type 0)
    → P "0"
    → P "1"
    → P "2"
    → P "3"
    → P "4"
    → P "5"
    → P "6"
    → P "7"
    → P "8"
    → P "9"
    → (d : ℕ) → P (digit d)
digit-elim P p0 p1 p2 p3 p4 p5 p6 p7 p8 p9 d =
    if-elim P (nat_eq d 0) _ _ (λ _. p0)
      λ _.
        if-elim P (nat_eq d 1) _ _ (λ _. p1)
          λ _.
            if-elim P (nat_eq d 2) _ _ (λ _. p2)
              λ _.
                if-elim P (nat_eq d 3) _ _ (λ _. p3)
                  λ _.
                    if-elim P (nat_eq d 4) _ _ (λ _. p4)
                      λ _.
                        if-elim P (nat_eq d 5) _ _ (λ _. p5)
                          λ _.
                            if-elim P (nat_eq d 6) _ _ (λ _. p6)
                              λ _.
                                if-elim P (nat_eq d 7) _ _ (λ _. p7)
                                  λ _. if-elim P (nat_eq d 8) _ _ (λ _. p8) λ _. p9

abbrev IsClosingDigit : String → Type 0
IsClosingDigit s = ((b : Bool) → label_closes b s ≡ true) × (rune_count s ≡ 1)

digit-IsClosingDigit : (d : ℕ) → IsClosingDigit (digit d)
unfolding closes rune_count
digit-IsClosingDigit =
    digit-elim IsClosingDigit ((λ b. refl), refl) ((λ b. refl), refl) ((λ b. refl), refl)
      ((λ b. refl), refl) ((λ b. refl), refl) ((λ b. refl), refl) ((λ b. refl), refl)
      ((λ b. refl), refl) ((λ b. refl), refl) ((λ b. refl), refl)

and_intro : (a b : Bool) → a ≡ true → b ≡ true → (a && b) ≡ true
and_intro a b p q = ground arith

and_parts : (a b : Bool) → (a && b) ≡ true → (a ≡ true) × (b ≡ true)
and_parts a b p = ground arith

closes-append :
    (b : Bool) (s t : String)
    → label_closes b s ≡ true
    → label_closes true t ≡ true
    → label_closes b (s <> t) ≡ true
unfolding closes
closes-append b String.[] t p q =
    ap (label_closes b) (nil-append t) ∙ ap (λ x. label_closes x t) p ∙ q
closes-append b (String.◌∷◌ c s) t p q =
    let (inner, rest) = and_parts (is_label_inner (code c)) _ p in
    ap (label_closes b) (cons-append c s t)
    ∙ and_intro (is_label_inner (code c)) _ inner
        (closes-append (is_lower_alnum (code c)) s t rest q)

decimal_from-closes :
    (fuel n : ℕ) (b : Bool) → n < 10 ^ suc fuel → label_closes b (decimal_from (suc fuel) n) ≡ true
unfolding decimal_from
decimal_from-closes zero n b h =
    if-elim (λ s. label_closes b s ≡ true) (ltb n 10) _ _ (λ _. (digit-IsClosingDigit n).0 b)
      (λ q. absurd (ground arith))
decimal_from-closes (suc fuel) n b h =
    if-elim (λ s. label_closes b s ≡ true) (ltb n 10) _ _ (λ _. (digit-IsClosingDigit n).0 b)
      (λ _.
        closes-append b (decimal_from (suc fuel) (n / 10)) (digit (n % 10))
          (decimal_from-closes fuel (n / 10) b (omega arith))
          ((digit-IsClosingDigit (n % 10)).0 true))

rune_count-decimal_from : (fuel n : ℕ) → rune_count (decimal_from fuel n) ≤ fuel
unfolding decimal_from rune_count
rune_count-decimal_from zero n = omega arith
rune_count-decimal_from (suc fuel) n =
    if-elim (λ s. rune_count s ≤ suc fuel) (ltb n 10) _ _
      (λ _. omega (arith, (digit-IsClosingDigit n).1))
      (λ _. omega (
        arith,
        rune_count-append (decimal_from fuel (n / 10)) (digit (n % 10)),
        (digit-IsClosingDigit (n % 10)).1,
        rune_count-decimal_from fuel (n / 10),
      ))

dash-closes : (n : ℕ) → n < 2 ^ 32 → label_closes true ("-" <> decimal n) ≡ true
unfolding closes decimal
dash-closes n h =
    ap (label_closes true) (
      cons-append "-" "" (decimal_from 10 n)
      ∙ ap (λ s. String.◌∷◌ "-" s) (nil-append (decimal_from 10 n)))
    ∙ decimal_from-closes 9 n false (omega arith)

is_label-append :
    (s t : String) → is_label s ≡ true → label_closes true t ≡ true → is_label (s <> t) ≡ true
unfolding is_label
is_label-append String.[] t p q = absurd (cc p)
is_label-append (String.◌∷◌ c s) t p q =
    let (first, rest) = and_parts (is_lower (code c)) _ p in
    ap is_label (cons-append c s t)
    ∙ and_intro (is_lower (code c)) _ first (closes-append true s t rest q)

dash_count : rune_count "-" ≡ 1
unfolding rune_count
dash_count = refl

-- The name of each revision of a deployment, whose own name is a label of at most 52 characters,
-- is a label of at most 63 characters, for every number that is a uint32.
pub revision_name-IsLabel :
    (cod : ClusterObjectDeployment) (n : ℕ)
    → is_label cod.metadata.name ≡ true
    → rune_count cod.metadata.name ≤ 52
    → n < 2 ^ 32
    → (is_label (revision_name cod n) ≡ true) × (rune_count (revision_name cod n) ≤ 63)
unfolding revision_name decimal
revision_name-IsLabel cod n label short h = (
  is_label-append cod.metadata.name ("-" <> decimal n) label (dash-closes n h),
  omega (
    arith,
    rune_count-append cod.metadata.name ("-" <> decimal_from 10 n),
    rune_count-append "-" (decimal_from 10 n),
    dash_count,
    rune_count-decimal_from 10 n,
  ),
)
