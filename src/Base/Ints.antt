-- ===== src/Base/Ints.antt =====
-- C's integers. A `size_t` is a number below `2 ^ 64`; an `int` or `ssize_t` that can be negative
-- is a `ℤ`, and `negsuc n` is -(n + 1).
use Prim.Native.Nat.{ℕ, ◌+◌, ◌-◌, ◌*◌, ◌%◌, ◌^◌}
use mathlib.Core.Bool.{Bool, true, false}
use mathlib.Core.Path.{◌≡◌}
use native.Mathlib.Omega.{arith}
use mnvkd.Base.Tests.{ltb, if◌then◌else◌}

pub data ℤ : Type 0 where
  pos : ℕ → ℤ
  negsuc : ℕ → ℤ

abbrev pub minus_one : ℤ
minus_one = negsuc 0

abbrev pub is_minus_one : ℤ → Bool
is_minus_one (pos n) = false
is_minus_one (negsuc n) = ltb n 1

abbrev pub is_negative : ℤ → Bool
is_negative (pos n) = false
is_negative (negsuc n) = true

abbrev pub is_zero : ℤ → Bool
is_zero (pos n) = ltb n 1
is_zero (negsuc n) = false

-- `SIZE_MAX + 1`
abbrev pub size_mod : ℕ
size_mod = 2 ^ 64

-- `size_t` sum and product, which wrap
abbrev pub add_size : ℕ → ℕ → ℕ
add_size a b = (a + b) % size_mod

abbrev pub mul_size : ℕ → ℕ → ℕ
mul_size a b = (a * b) % size_mod

-- `size_t` difference, which wraps below 0
abbrev pub sub_size : ℕ → ℕ → ℕ
sub_size a b = (a + size_mod - b) % size_mod

-- the conversions `(ssize_t)n` and `(size_t)z`
abbrev pub to_ssize : ℕ → ℤ
to_ssize n = if ltb n (2 ^ 63) then pos n else negsuc (size_mod - n - 1)

abbrev pub to_size : ℤ → ℕ
to_size (pos n) = n % size_mod
to_size (negsuc n) = (size_mod - 1 - n % size_mod) % size_mod

-- Every `size_t` survives the conversion to `ssize_t` and back.
pub to_size-to_ssize : (n : ℕ) → (n % size_mod) ≡ n → to_size (to_ssize n) ≡ n
to_size-to_ssize n h = ground arith

-- errno values, as Linux numbers them
abbrev pub enoent : ℕ
enoent = 2

abbrev pub eintr : ℕ
eintr = 4

abbrev pub eagain : ℕ
eagain = 11

abbrev pub enomem : ℕ
enomem = 12

abbrev pub einval : ℕ
einval = 22

abbrev pub epipe : ℕ
epipe = 32

abbrev pub erange : ℕ
erange = 34

abbrev pub eproto : ℕ
eproto = 71

abbrev pub enobufs : ℕ
enobufs = 105

-- The value of a call that can fail, or the errno that it leaves beside its -1 or NULL.
pub data Checked {ℓ} (A : Type ℓ) : Type ℓ where
  ok : A → Checked A
  fail : ℕ → Checked A

infixl 5 ◌>>=◌
abbrev pub ◌>>=◌ {ℓ κ} : {A : Type ℓ} {B : Type κ} → Checked A → (A → Checked B) → Checked B
ok a >>= f = f a
fail e >>= f = fail e
