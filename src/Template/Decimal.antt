-- ===== src/Template/Decimal.antt =====
-- The value of the digits in the names of revisions.
use Prim.Native.String.{[], ◌∷◌}
use Prim.Native.Char.{code}
use text.Mathlib.TextLemmas.{nil-append, cons-append, tail-eq_of_cons-eq}
use orb_operator.Base.{
  ℕ, zero, suc, ◌+◌, ◌-◌, ◌*◌, ◌/◌, ◌%◌, ◌^◌, ◌<◌, String, ◌<>◌, ◌≡◌, refl, sym, ap, ◌∙◌, arith,
  ltb, nat_eq, nat_eq_iff, ltb→lt, if-elim, if◌then◌else◌, false,
}
use orb_operator.Api.{ClusterObjectDeployment}
use orb_operator.Template.{digit, decimal_from, decimal, revision_name}

-- The value of decimal digits after a number.
unfoldable value_from : ℕ → String → ℕ
value_from n [] = n
value_from n (c ∷ s) = value_from (n * 10 + (code c - 48)) s

unfoldable pub value : String → ℕ
unfolding value_from
value s = value_from 0 s

value_from-append : (n : ℕ) (s t : String) → value_from n (s <> t) ≡ value_from (value_from n s) t
unfolding value_from
value_from-append n [] t = ap (value_from n) (nil-append t)
value_from-append n (c ∷ s) t =
    ap (value_from n) (cons-append c s t) ∙ value_from-append (n * 10 + (code c - 48)) s t

-- One test of the digit.
if_digit :
    (n d k : ℕ) (t rest : String)
    → value_from n t ≡ n * 10 + k
    → (nat_eq d k ≡ false → value_from n rest ≡ n * 10 + d)
    → value_from n (if nat_eq d k then t else rest) ≡ n * 10 + d
if_digit n d k t rest here later =
    if-elim (λ s. value_from n s ≡ n * 10 + d) (nat_eq d k) t rest
      (λ q. here ∙ ap (λ x. n * 10 + x) (sym ((nat_eq_iff d k).0 q))) later

value_from-digit : (n d : ℕ) → d < 10 → value_from n (digit d) ≡ n * 10 + d
unfolding value_from
value_from-digit n d h = if_digit n d 0 "0" _ refl λ n0. if_digit n d 1 "1" _ refl λ n1.
    if_digit n d 2 "2" _ refl λ n2. if_digit n d 3 "3" _ refl λ n3. if_digit n d 4 "4" _ refl λ n4.
      if_digit n d 5 "5" _ refl λ n5. if_digit n d 6 "6" _ refl λ n6.
        if_digit n d 7 "7" _ refl
          λ n7. if_digit n d 8 "8" _ refl λ n8. ap (λ x. n * 10 + x) (ground (arith))

value_from-empty : value_from 0 "" ≡ 0
unfolding value_from
value_from-empty = refl

value_from-decimal_from : (fuel n : ℕ) → n < 10 ^ fuel → value_from 0 (decimal_from fuel n) ≡ n
unfolding decimal_from
value_from-decimal_from zero n h = value_from-empty ∙ omega arith
value_from-decimal_from (suc fuel) n h =
    if-elim (λ s. value_from 0 s ≡ n) (ltb n 10) _ _
      (λ q. value_from-digit 0 n (ltb→lt n 10 q) ∙ omega arith)
      (λ q.
        value_from-append 0 (decimal_from fuel (n / 10)) (digit (n % 10))
        ∙ value_from-digit _ (n % 10) (omega arith)
        ∙ ap (λ x. x * 10 + n % 10) (value_from-decimal_from fuel (n / 10) (omega arith))
        ∙ omega arith)

-- A number below ten to the tenth, so every uint32, is the value of its digits.
pub value-decimal : (n : ℕ) → n < 10 ^ 10 → value (decimal n) ≡ n
unfolding value decimal
value-decimal n h = value_from-decimal_from 10 n h

append-injective : (s t u : String) → (s <> t) ≡ (s <> u) → t ≡ u
append-injective [] t u q = sym (nil-append t) ∙ q ∙ nil-append u
append-injective (c ∷ s) t u q =
    append-injective s t u (tail-eq_of_cons-eq (sym (cons-append c s t) ∙ q ∙ cons-append c s u))

-- Revisions of a deployment whose numbers are different uint32 values have different names.
pub revision_name-injective :
    (cod : ClusterObjectDeployment) (m n : ℕ)
    → m < 2 ^ 32
    → n < 2 ^ 32
    → revision_name cod m ≡ revision_name cod n
    → m ≡ n
unfolding revision_name
revision_name-injective cod m n bm bn q =
    sym (value-decimal m (omega arith))
    ∙ ap value (append-injective "-" _ _ (append-injective cod.metadata.name _ _ q))
    ∙ value-decimal n (omega arith)
