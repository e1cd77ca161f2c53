-- ===== src/Rfc/Bits.antt =====
-- The bitwise or of the size's digits, by arithmetic.
use Prim.Native.Nat.{max, bit_or, digits, bit_or-bitwise}
use mnvkd.Base.{ℕ, zero, suc, ◌+◌, ◌*◌, ◌/◌, ◌%◌, ◌≤◌, ◌<◌, ◌≡◌, refl, ap, ◌∙◌, arith}

abbrev or_digits : ℕ → ℕ → ℕ → ℕ
or_digits n a b = digits (λ x. x) max n a b

-- The count of digits does not matter once it covers the first number.
or_digits-enough : (n m a b : ℕ) → a ≤ n → a ≤ m → or_digits n a b ≡ or_digits m a b
or_digits-enough zero zero a b p q = refl
or_digits-enough zero (suc m) zero b p q = refl
or_digits-enough zero (suc m) (suc a) b p q = absurd (omega arith)
or_digits-enough (suc n) zero zero b p q = refl
or_digits-enough (suc n) zero (suc a) b p q = absurd (omega arith)
or_digits-enough (suc n) (suc m) zero b p q = refl
or_digits-enough (suc n) (suc m) (suc a) b p q =
    omega (arith, or_digits-enough n m (suc a / 2) (b / 2) (omega arith) (omega arith))

zero-bit_or : (b : ℕ) → bit_or 0 b ≡ b
zero-bit_or b = bit_or-bitwise 0 b

-- The lowest digit of an or.
bit_or_low : (a b : ℕ) → bit_or a b ≡ bit_or (a / 2) (b / 2) * 2 + max (a % 2) (b % 2)
bit_or_low zero b = omega (arith, zero-bit_or b, zero-bit_or (b / 2))
bit_or_low (suc a) b = omega (
  arith,
  bit_or-bitwise (suc a) b,
  bit_or-bitwise (suc a / 2) (b / 2),
  or_digits-enough a (suc a / 2) (suc a / 2) (b / 2) (omega arith) (omega arith),
)

above : (n a b : ℕ) → a ≤ n → (a ≤ bit_or a b) × (b ≤ bit_or a b)
above n zero b h = (omega (arith, zero-bit_or b), omega (arith, zero-bit_or b))
above zero (suc a) b h = absurd (omega arith)
above (suc n) (suc a) b h =
    let (p, q) = above n (suc a / 2) (b / 2) (omega arith) in
    (omega (arith, p, bit_or_low (suc a) b), omega (arith, q, bit_or_low (suc a) b))

-- An or is at least each of its two numbers.
pub bit_or_above : (a b : ℕ) → (a ≤ bit_or a b) × (b ≤ bit_or a b)
bit_or_above a b = above a a b (omega arith)

or_zero : (n a : ℕ) → a ≤ n → bit_or a 0 ≡ a
or_zero n zero h = zero-bit_or 0
or_zero zero (suc a) h = absurd (omega arith)
or_zero (suc n) (suc a) h = omega (arith, bit_or_low (suc a) 0, or_zero n (suc a / 2) (omega arith))

gone : (b : ℕ) → b < 16 → b / 2 / 2 / 2 / 2 ≡ 0
gone b h = omega arith

four_halves : (a : ℕ) → bit_or (a * 16 / 2 / 2 / 2 / 2) 0 ≡ a
four_halves a = or_zero a (a * 16 / 2 / 2 / 2 / 2) (omega arith) ∙ omega arith

-- Where the first number ends in four zeros, an or with a digit is a sum.
pub bit_or_digit : (a b : ℕ) → b < 16 → bit_or (a * 16) b ≡ a * 16 + b
bit_or_digit a b h = omega (
  arith,
  bit_or_low (a * 16) b,
  bit_or_low (a * 16 / 2) (b / 2),
  bit_or_low (a * 16 / 2 / 2) (b / 2 / 2),
  bit_or_low (a * 16 / 2 / 2 / 2) (b / 2 / 2 / 2),
  four_halves a,
  ap (bit_or (a * 16 / 2 / 2 / 2 / 2)) (gone b h),
)
