-- ===== src/Base/Int64.antt =====
-- Go's `int64`, as the integer that the two's complement pattern stands for. Each operation wraps.
use rlaas.Base.Tests.{ltb, if◌then◌else◌}
use rlaas.Base.Int.{
  ℤ, pos, negsuc, pos_part, neg_part, sub_ℕ, ◌+ℤ◌, ◌-ℤ◌, ◌*ℤ◌, ◌≤ℤ◌, quot, +ℤ_parts,
  neg_part-nonneg, int_laws, ltb_ℤ,
}
use Prim.Native.Nat.{ℕ, ◌-◌, ◌+◌, ◌^◌, ◌%◌, ◌≤◌, ◌<◌}
use mathlib.Core.Path.{◌≡◌}
use native.Mathlib.Omega.{arith}

abbrev pub max_int64 : ℕ
max_int64 = 2 ^ 63 - 1

abbrev pub Int64 : Type 0
Int64 = ℤ

-- The value lies in the range of an `int64`.
pub record InRange (a : ℤ) : Type 0 where
  pub below : pos_part a < 2 ^ 63
  pub above : neg_part a ≤ 2 ^ 63

-- The signed value of a 64-bit pattern.
unfoldable pub of_bits : ℕ → ℤ
of_bits b = if ltb b (2 ^ 63) then pos b else negsuc (2 ^ 64 - 1 - b)

unfoldable pub wrap64 : ℤ → ℤ
unfolding of_bits
wrap64 (pos n) = of_bits (n % 2 ^ 64)
wrap64 (negsuc n) = of_bits (2 ^ 64 - 1 - n % 2 ^ 64)

infixl 65 ◌+w◌ ◌-w◌
infixl 70 ◌*w◌ ◌/w◌
unfoldable pub ◌+w◌ : ℤ → ℤ → ℤ
a +w b = wrap64 (a +ℤ b)

unfoldable pub ◌-w◌ : ℤ → ℤ → ℤ
a -w b = wrap64 (a -ℤ b)

unfoldable pub ◌*w◌ : ℤ → ℤ → ℤ
a *w b = wrap64 (a *ℤ b)

-- Only the smallest number divided by -1 leaves the range, and wraps.
unfoldable pub ◌/w◌ : ℤ → ℤ → ℤ
a /w b = wrap64 (quot a b)

pub wrap64_exact : (a : ℤ) → InRange a → wrap64 a ≡ a
unfolding wrap64
wrap64_exact (pos n) h = ground arith
wrap64_exact (negsuc n) h = ground arith

pub wrap64-InRange : (a : ℤ) → InRange (wrap64 a)
unfolding wrap64
wrap64-InRange (pos n) = ground arith
wrap64-InRange (negsuc n) = ground arith

pub +w_exact : (a b : ℤ) → InRange (a +ℤ b) → a +w b ≡ a +ℤ b
unfolding ◌+w◌
+w_exact a b h = wrap64_exact (a +ℤ b) h

pub -w_exact : (a b : ℤ) → InRange (a -ℤ b) → a -w b ≡ a -ℤ b
unfolding ◌-w◌
-w_exact a b h = wrap64_exact (a -ℤ b) h

pub *w_exact : (a b : ℤ) → InRange (a *ℤ b) → a *w b ≡ a *ℤ b
unfolding ◌*w◌
*w_exact a b h = wrap64_exact (a *ℤ b) h

-- A sum of numbers that are not negative is exact below one that is in range.
pub +w_exact_below :
    (v l c : ℤ) → pos 0 ≤ℤ v → pos 0 ≤ℤ c → v ≤ℤ l → InRange (l +ℤ c) → v +w c ≡ v +ℤ c
+w_exact_below v l c hv hc hl hr = +w_exact v c (
    omega (
      arith,
      +ℤ_parts v c,
      +ℤ_parts l c,
      neg_part-nonneg v hv,
      neg_part-nonneg c hc,
      neg_part-nonneg (v +ℤ c) (omega (arith, +ℤ_parts v c)),
      neg_part-nonneg (l +ℤ c) (omega (arith, +ℤ_parts l c)),
    ))

pub ruleset word_laws = (int_laws, wrap64_exact, +w_exact, -w_exact)

-- A sum past the largest `int64` is a negative number.
pub +w_overflow :
    (a b : ℕ)
    → a < 2 ^ 63
    → b < 2 ^ 63
    → 2 ^ 63 ≤ a + b
    → pos a +w pos b ≡ negsuc (2 ^ 64 - 1 - (a + b))
unfolding ◌+w◌ wrap64 ◌+ℤ◌
+w_overflow a b ha hb h = ground arith
