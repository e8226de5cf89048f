-- ===== src/Base/Int.antt =====
-- Signed integers over the native numbers, and Go's 64-bit words: `int64`, `time.Duration`.
use orb_operator.Base.{ℕ, suc, ◌+◌, ◌-◌, ◌*◌, ◌%◌, ◌≤◌, ◌≡◌, Bool, arith, ltb, leb, if◌then◌else◌}

-- `negsuc n` is -(n + 1).
pub data ℤ : Type 0 where
  pos : ℕ → ℤ
  negsuc : ℕ → ℤ

abbrev pub pos_part : ℤ → ℕ
pos_part (pos n) = n
pos_part (negsuc n) = 0

abbrev pub neg_part : ℤ → ℕ
neg_part (pos n) = 0
neg_part (negsuc n) = suc n

abbrev pub sub_ℕ : ℕ → ℕ → ℤ
sub_ℕ a b = if leb b a then pos (a - b) else negsuc (b - a - 1)

infixl 65 ◌+ℤ◌ ◌-ℤ◌
infixl 70 ◌*ℤ◌
infix 50 ◌≤ℤ◌
abbrev pub ◌+ℤ◌ : ℤ → ℤ → ℤ
a +ℤ b = sub_ℕ (pos_part a + pos_part b) (neg_part a + neg_part b)

abbrev pub ◌-ℤ◌ : ℤ → ℤ → ℤ
a -ℤ b = sub_ℕ (pos_part a + neg_part b) (neg_part a + pos_part b)

abbrev pub ◌*ℤ◌ : ℤ → ℤ → ℤ
a *ℤ b =
    sub_ℕ (pos_part a * pos_part b + neg_part a * neg_part b)
      (pos_part a * neg_part b + neg_part a * pos_part b)

abbrev pub ◌≤ℤ◌ : ℤ → ℤ → Type 0
a ≤ℤ b = pos_part a + neg_part b ≤ pos_part b + neg_part a

abbrev pub leb_ℤ : ℤ → ℤ → Bool
leb_ℤ a b = leb (pos_part a + neg_part b) (pos_part b + neg_part a)

-- `int64(n)` of a length, and sums of such: the bit pattern.
abbrev pub i64 : ℕ → ℕ
i64 n = n % 18446744073709551616

-- The `int64` that a pattern stands for.
abbrev pub of_pattern : ℕ → ℤ
of_pattern r = if ltb r 9223372036854775808 then pos r else negsuc (18446744073709551615 - r)

-- Two's complement wrap-around of an `int64` result.
abbrev pub wrap64 : ℤ → ℤ
wrap64 (pos n) = of_pattern (n % 18446744073709551616)
wrap64 (negsuc n) = of_pattern (18446744073709551615 - n % 18446744073709551616)

-- `time.Time.Sub` saturates at the ends of `int64`.
abbrev pub sat64 : ℤ → ℤ
sat64 (pos n) = if leb n 9223372036854775807 then pos n else pos 9223372036854775807
sat64 (negsuc n) = if leb n 9223372036854775807 then negsuc n else negsuc 9223372036854775807

-- The range of `int64`.
abbrev pub IsInt64 : ℤ → Type 0
IsInt64 a = (pos_part a ≤ 9223372036854775807) × (neg_part a ≤ 9223372036854775808)

pub wrap64_id : (a : ℤ) → IsInt64 a → wrap64 a ≡ a
wrap64_id (pos n) h = ground arith
wrap64_id (negsuc n) h = ground arith

pub sat64_id : (a : ℤ) → IsInt64 a → sat64 a ≡ a
sat64_id (pos n) h = ground arith
sat64_id (negsuc n) h = ground arith
