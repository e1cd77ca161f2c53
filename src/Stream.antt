-- ===== src/Stream.antt =====
-- What the blocking calls of vk_thread_io.h read of the bytes of a connection, and the numbers that
-- the C library writes and reads as text. The bytes up to the next newline, or else to the end of
-- file, have come in when a line is read; what `vk_readline` does elsewhere is in Rounds.
pub mod Laws
pub mod Rounds
use mnvkd.Base.{
  ℕ, zero, suc, ◌+◌, ◌-◌, ◌*◌, ◌/◌, ◌%◌, ◌^◌, ℤ, pos, negsuc, Bool, true, false, ◌&&◌, ◌||◌, ltb,
  leb, ◌==◌, if◌then◌else◌, Option, some, none, List, [], ◌∷◌, take, drop, min, length, ◌++◌,
}
use mnvkd.Heap.{to_int}

abbrev pub newline : ℕ
newline = b'\n'

-- `vk_read`: `len` bytes, or all until end of file, and what is left.
unfoldable pub read_bytes : ℕ → List ℕ → List ℕ × List ℕ
read_bytes len input = (take len input, drop len input)

abbrev pub with_first : ℕ → Option (List ℕ × List ℕ) → Option (List ℕ × List ℕ)
with_first x none = none
with_first x (some (line, rest)) = some (x ∷ line, rest)

-- The bytes up to the first newline, and those behind it.
unfoldable pub split_line : List ℕ → Option (List ℕ × List ℕ)
split_line [] = none
split_line (x ∷ input) =
    let later = split_line input in
    if x == newline then some (x ∷ [], input) else with_first x later

abbrev pub or_bytes : ℕ → List ℕ → Option (List ℕ × List ℕ) → List ℕ × List ℕ
or_bytes len input none = (take len input, drop len input)
or_bytes len input (some r) = r

-- `vk_readline`: a whole line, however long it is, or `len` bytes where no newline comes, or all until
-- end of file.
unfoldable pub read_line : ℕ → List ℕ → List ℕ × List ℕ
unfolding split_line
read_line len input = or_bytes len input (split_line input)

-- A buffer after bytes have been copied to its start.
abbrev pub overwrite : List ℕ → List ℕ → List ℕ
overwrite bytes buf = bytes ++ drop (length bytes) buf

abbrev pub is_digit : ℕ → Bool
is_digit c = leb b'0' c && leb c b'9'

-- `isspace`
abbrev pub is_space : ℕ → Bool
is_space c = c == 32 || (leb 9 c && leb c 13)

unfoldable pub digits_value : ℕ → List ℕ → ℕ
digits_value acc [] = acc
digits_value acc (c ∷ s) =
    let rest = digits_value (acc * 10 + (c - 48)) s in if is_digit c then rest else acc

unfoldable pub skip_spaces : List ℕ → List ℕ
skip_spaces [] = []
skip_spaces (c ∷ s) = let rest = skip_spaces s in if is_space c then rest else c ∷ s

-- `(int)strtol(s, NULL, 10)`, which keeps to the range of a `long`
abbrev pub signed_value : List ℕ → ℤ
signed_value [] = pos 0
signed_value (c ∷ s) =
    if c == b'-'
    then to_int (2 ^ 64 - min (digits_value 0 s) (2 ^ 63))
    else to_int (min (digits_value 0 (if c == b'+' then s else c ∷ s)) (2 ^ 63 - 1))

unfoldable pub atoi : List ℕ → ℤ
unfolding digits_value skip_spaces
atoi s = signed_value (skip_spaces s)

-- `%d` of an `int` that is not negative, which has ten digits at most
unfoldable pub decimal_digits : ℕ → ℕ → List ℕ → List ℕ
decimal_digits zero n out = out
decimal_digits (suc fuel) n out =
    let more = decimal_digits fuel (n / 10) ((48 + n % 10) ∷ out) in
    if ltb n 10 then (48 + n) ∷ out else more

unfoldable pub decimal : ℕ → List ℕ
unfolding decimal_digits
decimal n = decimal_digits 10 n []

-- `%d`
unfoldable pub signed_decimal : ℤ → List ℕ
unfolding decimal
signed_decimal (pos n) = decimal n
signed_decimal (negsuc n) = b'-' ∷ decimal (n + 1)
