-- ===== src/Rfc/Hex.antt =====
-- vk_rfc.c: sizes in hexadecimal, as the head of a chunk has them, and in decimal. A buffer gives the byte at each
-- offset; a `char` is signed, and an `int` has 32 bits.
use Prim.Native.Nat.{bit_and, bit_or}
use mnvkd.Base.{
  ℕ, zero, suc, ◌+◌, ◌-◌, ◌*◌, ◌/◌, ◌%◌, ◌^◌, not, ◌&&◌, leb, if◌then◌else◌, ltb, ◌==◌,
}

abbrev pub Buf : Type 0
Buf = ℕ → ℕ

abbrev pub put : Buf → ℕ → ℕ → Buf
put val i c = λ k. if k == i then c else val k

-- The loop of `flsl`, over the 64 bits of a `long`
unfoldable pub last_set : ℕ → ℕ → ℕ → ℕ
last_set zero bit mask = bit
last_set (suc fuel) bit mask =
    let later = last_set fuel (bit + 1) (mask / 2) in if mask == 1 then bit else later

unfoldable pub flsl : ℕ → ℕ
flsl mask = if mask == 0 then 0 else last_set 64 1 mask

-- `flsh`: the shift by 3 drops the three highest bits.
unfoldable pub flsh : ℕ → ℕ
flsh size = flsl (size * 8 % 2 ^ 64) / 4

-- `-(((n) & 0x80) >> 7)` of an `int`
abbrev pub sign_mask : ℕ → ℕ
sign_mask n = (2 ^ 32 - bit_and n 0x80 / 2 ^ 7) % 2 ^ 32

-- `VALHEX`
abbrev pub valhex : ℕ → ℕ
valhex v =
    bit_or (bit_and (v + 48) (sign_mask ((v + 2 ^ 32 - 10) % 2 ^ 32)))
      (bit_and (v + 55) (sign_mask ((9 + 2 ^ 32 - v) % 2 ^ 32)))

-- The `char` as an `int`, and its arithmetic shift right by 6
abbrev pub promote : ℕ → ℕ
promote b = if ltb b 128 then b else b + (2 ^ 32 - 256)

abbrev pub shift_six : ℕ → ℕ
shift_six b = if ltb b 128 then b / 64 else b / 64 + (2 ^ 32 - 4)

-- `HEXVAL`
abbrev pub hexval : ℕ → ℕ
hexval b = bit_and ((bit_and (promote b) 0x1f + shift_six b * 0x19 + (2 ^ 32 - 0x10)) % 2 ^ 32) 0xF

-- The loop of `size_hex` with `n` digits to go, which is `16 - i`
unfoldable pub write_digits : ℕ → ℕ → ℕ → ℕ → Buf → Buf × ℕ
write_digits zero len j size val = (val, j)
write_digits (suc n) len j size val =
    let c = size / 2 ^ (4 * n) % 16 in
    let later =
      write_digits n len (if ltb 0 (bit_or j c) then j + 1 else j) size (put val j (valhex c)) in
    if ltb j len then later else (val, j)

unfoldable pub size_hex : Buf → ℕ → ℕ → Buf × ℕ
size_hex val len size =
    let (val1, j) = write_digits (flsh size) (if ltb 16 len then 16 else len) 0 size val in
    (val1, if j == 0 then 1 else j)

-- The loop of `hex_size` with `n` rounds to go, which is `16 - i`
unfoldable pub read_digits : ℕ → ℕ → ℕ → Buf → ℕ
read_digits zero i size val = size
read_digits (suc n) i size val =
    let later = read_digits n (i + 1) (bit_or (size * 16 % 2 ^ 64) (hexval (val i))) val in
    if not (val i == 0) then later else size

unfoldable pub hex_size : Buf → ℕ
hex_size val = read_digits 16 0 0 val

-- The loop of `dec_size` with `n` rounds to go, which is `20 - i`
unfoldable pub read_decimals : ℕ → ℕ → ℕ → Buf → ℕ
read_decimals zero i size val = size
read_decimals (suc n) i size val =
    let later = read_decimals n (i + 1) ((size * 10 + (val i - 48)) % 2 ^ 64) val in
    if leb 48 (val i) && leb (val i) 57 then later else size

unfoldable pub dec_size : Buf → ℕ
dec_size val = read_decimals 20 0 0 val
