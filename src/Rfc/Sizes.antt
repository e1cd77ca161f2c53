-- ===== src/Rfc/Sizes.antt =====
-- Writing a size in hexadecimal and reading it back.
use native.Mathlib.Nat.{div-lt_iff_lt-mul, le-div_iff_mul-le, div-eq_of_lt}
use mnvkd.Base.{
  ℕ, zero, suc, ◌+◌, ◌-◌, ◌*◌, ◌/◌, ◌%◌, ◌^◌, ◌≤◌, ◌<◌, if◌then◌else◌, ltb, ◌==◌, if_true, if_false,
  ◌≡◌, refl, sym, ap, ◌∙◌, arith,
}
use mnvkd.Rfc.Hex.{Buf, put, flsl, flsh, write_digits, size_hex, hex_size}
use mnvkd.Rfc.Digits.{flsh_bounds, sixteen, power_below, Holds, write_Holds, read_Holds}

-- The first digit of a size.
first_digit :
    (n size : ℕ) → 2 ^ (4 * n) ≤ size → size < 2 ^ (4 * suc n) → 0 < size / 2 ^ (4 * n) % 16
first_digit n size p q =
    let positive : 0 < 2 ^ (4 * n) = omega (arith, power_below 0 (4 * n) (omega arith)) in
    let least =
      (le-div_iff_mul-le {k = 2 ^ (4 * n)} {x = 1} {y = size} positive).1 (omega (arith, p)) in
    let most =
      (div-lt_iff_lt-mul {k = 2 ^ (4 * n)} {x = size} {y = 16} positive).1
        (omega (arith, q, sixteen n)) in
    omega (arith, least, most)

-- What `size_hex` leaves, for a size of `suc n` digits.
module _ (val : Buf) (len size n : ℕ) (room : 16 ≤ len) (few : n < 16) (counted : flsh size ≡ suc n)
    (low : 2 ^ (4 * n) ≤ size) (high : size < 2 ^ (4 * suc n)) where
  written : ((size_hex val len size).1 ≡ suc n) × Holds (suc n) 0 size (size_hex val len size).0
  unfolding size_hex
  written =
      let bound : 16 ≤ (if ltb 16 len then 16 else len) = ground arith in
      let same : suc n - 1 ≡ n = omega arith in
      let digit : 0 < 0 + size / 2 ^ (4 * (suc n - 1)) % 16 =
        omega (arith, first_digit n size low high, ap (λ m. size / 2 ^ (4 * m) % 16) same) in
      let (e, _, held) =
        write_Holds (suc n) (if ltb 16 len then 16 else len) 0 size val (omega (arith, bound))
          digit in
      rw counted (
        ap (λ j. if j == 0 then 1 else j) e
            ∙ (if_false (0 + suc n == 0) 1 (0 + suc n) (ground arith) ∙ omega arith),
        held,
      )

zero_above : (n size : ℕ) → size < 2 ^ (4 * suc n) → 0 ≡ size / 2 ^ (4 * suc n)
zero_above n size h = sym (div-eq_of_lt h)

-- The digits are kept where a byte is put behind them.
put-Holds :
    (n j k c size : ℕ) (val : Buf) → j + n ≤ k → Holds n j size val → Holds n j size (put val k c)
unfolding Holds
put-Holds zero j k c size val h t = tt
put-Holds (suc n) j k c size val h (d, ds) = (
  if_false (j == k) c (val j) (ground arith) ∙ d,
  put-Holds n (j + 1) k c size val (omega arith) ds,
)

-- The digits that `size_hex` leaves.
pub size_hex-Holds :
    (val : Buf) (len size : ℕ)
    → 16 ≤ len
    → 0 < size
    → size < 2 ^ 61
    → (n : ℕ) × ((size_hex val len size).1 ≡ suc n)
      × (n < 16)
      × (2 ^ (4 * n) ≤ size)
      × (0 ≡ size / 2 ^ (4 * suc n))
      × Holds (suc n) 0 size (size_hex val len size).0
size_hex-Holds val len size r p q =
    let (n, counted, low, high, few) = flsh_bounds size p q in
    let (e, held) = written val len size n r few counted low high in
    (n, e, few, low, zero_above n size high, held)

-- Reading back a size that was written in hexadecimal, with a NUL after its digits, gives the size:
-- for a size that is not 0 and below 2 ^ 61, in a buffer of at least 16 bytes. From 1 to 16 bytes are
-- written.
hex_size-size_hex :
    (val : Buf) (len size : ℕ)
    → 16 ≤ len
    → 0 < size
    → size < 2 ^ 61
    → (hex_size (put (size_hex val len size).0 (size_hex val len size).1 0) ≡ size)
      × (0 < (size_hex val len size).1)
      × ((size_hex val len size).1 ≤ 16)
unfolding hex_size
hex_size-size_hex val len size r p q =
    let (n, e, few, _, above, held) = size_hex-Holds val len size r p q in
    let end = (size_hex val len size).1 in
    let val1 = put (size_hex val len size).0 end 0 in
    let digits = put-Holds (suc n) 0 end 0 size (size_hex val len size).0 (omega (arith, e)) held in
    let nul : val1 (0 + suc n) ≡ 0 = if_true (0 + suc n == end) 0 _ (ground (arith, e)) in
    (
      read_Holds (suc n) 16 0 0 size val1 (omega arith) (omega arith) above digits nul,
      omega (arith, e),
      omega (arith, e, few),
    )

-- Where the shift by 3 leaves nothing of a size, which it does of 0 and of each multiple of 2 ^ 61,
-- no digit is written, and the length given back is 1 all the same.
size_hex_lost :
    (val : Buf) (len size : ℕ) → size * 8 % 2 ^ 64 ≡ 0 → size_hex val len size ≡ (val, 1)
unfolding size_hex flsh flsl write_digits
size_hex_lost val len size h = rw h refl
