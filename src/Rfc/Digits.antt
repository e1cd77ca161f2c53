-- ===== src/Rfc/Digits.antt =====
-- The number of hexadecimal digits of a size, and the digits themselves.
use Prim.Native.Nat.{bit_or}
use native.Mathlib.Nat.{div-div-eq-div-mul, pow-le-pow_right, div-le_self}
use mnvkd.Base.{
  if_true, if_false, all_below, all_below_lem, ℕ, zero, suc, ◌+◌, ◌-◌, ◌*◌, ◌/◌, ◌%◌, ◌^◌, ◌≤◌, ◌<◌,
  Bool, true, false, not, ◌&&◌, if◌then◌else◌, ltb, ◌==◌, ◌≡◌, refl, sym, ap, ◌∙◌, arith,
}
use mnvkd.Rfc.Bits.{bit_or_above, bit_or_digit}
use mnvkd.Rfc.Hex.{Buf, put, last_set, flsl, flsh, valhex, hexval, write_digits, read_digits}

-- The position of the last bit, from any count on.
last_set_bounds :
    (fuel bit mask : ℕ)
    → 0 < mask
    → mask < 2 ^ fuel
    → (k : ℕ) × (last_set fuel bit mask ≡ bit + k)
      × (2 ^ k ≤ mask)
      × (mask < 2 ^ suc k)
      × (k < fuel)
unfolding last_set
last_set_bounds zero bit mask p q = absurd (omega arith)
last_set_bounds (suc fuel) bit zero p q = absurd (omega arith)
last_set_bounds (suc fuel) bit (suc zero) p q =
    (0, omega arith, omega arith, omega arith, omega arith)
last_set_bounds (suc fuel) bit (suc (suc mask)) p q =
    let (k, e, a, b, c) =
      last_set_bounds fuel (bit + 1) (suc (suc mask) / 2) (omega arith) (omega arith) in
    (suc k, ground (arith, e), omega (arith, a), omega (arith, b), omega arith)

eight : (m : ℕ) → 2 ^ (m + 3) ≡ 8 * 2 ^ m
eight m =
    let three : m + 3 ≡ suc (suc (suc m)) = omega arith in
    let expanded : 2 ^ suc (suc (suc m)) ≡ 8 * 2 ^ m = omega arith in
    ap (λ e. 2 ^ e) three ∙ expanded

three_up : (k size : ℕ) → 0 < size → size * 8 < 2 ^ suc k → 3 ≤ k
three_up zero size p q = absurd (omega arith)
three_up (suc zero) size p q = absurd (omega arith)
three_up (suc (suc zero)) size p q = absurd (omega arith)
three_up (suc (suc (suc k))) size p q = omega arith

pub power_below : (m k : ℕ) → m ≤ k → 2 ^ m ≤ 2 ^ k
power_below m k h = pow-le-pow_right (omega arith) h

-- The digits that `flsh` counts are those of the size, where its three highest bits are 0.
pub flsh_bounds :
    (size : ℕ)
    → 0 < size
    → size < 2 ^ 61
    → (n : ℕ) × (flsh size ≡ suc n) × (2 ^ (4 * n) ≤ size) × (size < 2 ^ (4 * suc n)) × (n < 16)
unfolding flsh flsl
flsh_bounds size p q =
    let (k, e, a, b, c) = last_set_bounds 64 1 (size * 8) (omega arith) (omega arith) in
    let three = three_up k size p b in
    let n = (k - 3) / 4 in
    let kept : size * 8 % 2 ^ 64 ≡ size * 8 = omega arith in
    let some : (size * 8 == 0) ≡ false = ground arith in
    (
      n,
      (rw (kept, some, e) (omega (arith, three))),
      omega (arith, a, eight (4 * n), power_below (4 * n + 3) k (omega (arith, three))),
      omega
          (arith, b, eight (4 * suc n), power_below (suc k) (4 * suc n + 3) (omega (arith, three))),
      omega (arith, c),
    )

abbrev good_digit : ℕ → Bool
good_digit x = hexval (valhex x) == x && (not (valhex x == 0) && ltb (hexval (valhex x)) 16)

digits_good : all_below 16 good_digit ≡ true
unfolding all_below
digits_good = refl

digit_of : (x : ℕ) → x < 16 → good_digit x ≡ true
digit_of x h = all_below_lem 16 good_digit x digits_good h

-- The digits of a size stand in a buffer from `j` on.
unfoldable pub Holds : ℕ → ℕ → ℕ → Buf → Type 0
Holds zero j size val = Unit {0}
Holds (suc n) j size val = (val j ≡ valhex (size / 2 ^ (4 * n) % 16)) × Holds n (j + 1) size val

pub sixteen : (n : ℕ) → 2 ^ (4 * suc n) ≡ 2 ^ (4 * n) * 16
sixteen n =
    let four : 4 * suc n ≡ suc (4 * n + 3) = omega arith in
    let doubled : 2 ^ suc (4 * n + 3) ≡ 2 ^ (4 * n + 3) * 2 = omega arith in
    ap (λ e. 2 ^ e) four ∙ (doubled ∙ omega (arith, eight (4 * n)))

-- The part of a size above a digit.
digit_step : (n size : ℕ) → size / 2 ^ (4 * suc n) ≡ size / 2 ^ (4 * n) / 16
digit_step n size = ap (λ d. size / d) (sixteen n) ∙ sym (div-div-eq-div-mul size (2 ^ (4 * n)) 16)

pub read_Holds :
    (n fuel j acc size : ℕ) (val : Buf)
    → n ≤ fuel
    → size < 2 ^ 64
    → acc ≡ size / 2 ^ (4 * n)
    → Holds n j size val
    → val (j + n) ≡ 0
    → read_digits fuel j acc val ≡ size
unfolding read_digits Holds
read_Holds zero zero j acc size val f g e h z = omega (arith, e)
read_Holds zero (suc fuel) j acc size val f g e h z =
    let at : val j ≡ 0 = ap val (omega arith) ∙ z in
    if_false (not (val j == 0)) _ _ (ground arith) ∙ omega (arith, e)
read_Holds (suc n) zero j acc size val f g e h z = absurd (omega arith)
read_Holds (suc n) (suc fuel) j acc size val f g e (h, hs) z =
    let x = size / 2 ^ (4 * n) % 16 in
    let good = digit_of x (omega arith) in
    let parts : (hexval (valhex x) ≡ x) × ((valhex x == 0) ≡ false) =
      (ground (arith, good), ground (arith, good)) in
    let above : acc ≡ size / 2 ^ (4 * n) / 16 = e ∙ digit_step n size in
    let small : acc * 16 % 2 ^ 64 ≡ acc * 16 = omega (arith, div-le_self size (2 ^ (4 * n))) in
    let next : bit_or (acc * 16 % 2 ^ 64) (hexval (val j)) ≡ size / 2 ^ (4 * n) =
      ap (λ b. bit_or b (hexval (val j))) small
      ∙ (ap (λ b. bit_or (acc * 16) b) (ap hexval h ∙ parts.0)
          ∙ (bit_or_digit acc x (omega arith) ∙ omega (arith, above))) in
    if_true (not (val j == 0)) _ _ (ap (λ b. not (b == 0)) h ∙ ap not parts.1)
    ∙ read_Holds n fuel (j + 1) (bit_or (acc * 16 % 2 ^ 64) (hexval (val j))) size val (omega arith)
        g next hs (ap val (omega arith) ∙ z)

-- The writer, with `n` digits to go, where one has been written or the next one is not 0.
pub write_Holds :
    (n len j size : ℕ) (val : Buf)
    → j + n ≤ len
    → 0 < j + size / 2 ^ (4 * (n - 1)) % 16
    → ((write_digits n len j size val).1 ≡ j + n)
      × ((k : ℕ) → k < j → (write_digits n len j size val).0 k ≡ val k)
      × Holds n j size (write_digits n len j size val).0
unfolding write_digits Holds
write_Holds zero len j size val f g = (omega arith, λ k h. refl, tt)
write_Holds (suc n) len j size val f g =
    let c = size / 2 ^ (4 * n) % 16 in
    let (p, q) = bit_or_above j c in
    let wrote : (if ltb 0 (bit_or j c) then j + 1 else j) ≡ j + 1 =
      if_true (ltb 0 (bit_or j c)) _ _ (ground (arith, p, q)) in
    let (e, kept, held) =
      write_Holds n len (j + 1) size (put val j (valhex c)) (omega arith) (omega arith) in
    rw
      (
        if_true (ltb j len)
            (write_digits n len (if ltb 0 (bit_or j c) then j + 1 else j) size
              (put val j (valhex c)))
            (val, j) (ground arith),
        wrote,
      )
      (
        omega (arith, e),
        (λ k h. kept k (omega arith) ∙ if_false (k == j) (valhex c) (val k) (ground arith)),
        (kept j (omega arith) ∙ if_true (j == j) (valhex c) (val j) (ground arith), held),
      )
