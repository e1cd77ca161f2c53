-- ===== src/Redis/Overrun.antt =====
-- `redis_request`: an argument with a negative length.
use mathlib.Core.List.{append_assoc}
use mnvkd.Base.{
  ℕ, ◌-◌, ◌<◌, ◌≤◌, ◌^◌, negsuc, to_size, true, false, ◌||◌, ◌==◌, ltb, if_true, if_false, List, [],
  ◌∷◌, ◌++◌, length, length-append, drop, min, take-min, take-all, ◌≡◌, refl, sym, ap, ◌∙◌, arith,
}
use mnvkd.Stream.{newline, read_line, read_bytes, overwrite, atoi, decimal}
use mnvkd.Stream.Laws.{is_line, is_line-append, read_line-newline, atoi-minus, decimal_line}
use mnvkd.Redis.Request.{done, ◌>>=◌, fits_line, overran, after_head, read_bulk, read_arg}
use mnvkd.Redis.Client.{crlf}

abbrev pub minus_line : ℕ → List ℕ
minus_line n = b'$' ∷ b'-' ∷ decimal n ++ crlf

read_minus_line :
    (n : ℕ) (rest : List ℕ) → n < 64 → read_line 127 (minus_line n ++ rest) ≡ (minus_line n, rest)
read_minus_line n rest lt =
    let (plain, short) = decimal_line n lt in
    let line : List ℕ = b'$' ∷ b'-' ∷ decimal n ++ (b'\r' ∷ []) in
    let plain_line : is_line line ≡ true =
      ground (arith, is_line-append (decimal n) (b'\r' ∷ [])) in
    let few : length line < 127 = omega (arith, length-append {0} (decimal n) (b'\r' ∷ [])) in
    let whole : minus_line n ≡ line ++ (newline ∷ []) =
      ap (λ z. b'$' ∷ b'-' ∷ z) (sym (append_assoc (decimal n) (b'\r' ∷ []) (newline ∷ []))) in
    ap (read_line 127) (ap (λ z. z ++ rest) whole ∙ append_assoc line (newline ∷ []) rest)
    ∙ (read_line-newline 127 line rest plain_line few ∙ ap (λ z. (z, rest)) (sym whole))

take_minus_line :
    (n : ℕ) (rest : List ℕ)
    → n < 64
    → fits_line 128 (read_line 127 (minus_line n ++ rest)) ≡ done (minus_line n, rest)
take_minus_line n rest lt =
    let (_, short) = decimal_line n lt in
    ap (fits_line 128) (read_minus_line n rest lt)
    ∙ if_false (ltb 128 (length (minus_line n))) _ _
        (ground (arith, short, length-append {0} (decimal n) crlf))

-- All bytes are read where more are asked for.
length-read_bytes :
    (n : ℕ) (bytes : List ℕ) → length bytes ≤ n → length ((read_bytes n bytes).0) ≡ length bytes
unfolding read_bytes
length-read_bytes n bytes h =
    ap length (sym (take-min n bytes) ∙ take-all (min n (length bytes)) bytes (omega arith))

read_bulk_minus :
    (i k : ℕ) (argv : ℕ → List ℕ) (buf rest : List ℕ)
    → k < 64
    → 64 < length rest
    → length rest < 2 ^ 63
    → read_bulk i argv buf rest (negsuc k) ≡ overran i (length rest)
read_bulk_minus i k argv buf rest lt many small =
    let all = length-read_bytes (to_size (negsuc k)) rest (omega arith) in
    if_true (ltb 64 (length (read_bytes (to_size (negsuc k)) rest).0)) _ _ (ground (arith, all))
    ∙ ap (overran i) all

-- All that comes in is copied to the buffer of an argument, which has 64 bytes, where the length of
-- the argument is given as a negative number and more than 64 bytes follow: where the line of the
-- length has come in whole when it is read, for numbers above -64 and less than 2 ^ 63 bytes.
pub read_arg_overruns :
    (i n : ℕ) (argv : ℕ → List ℕ) (buf rest : List ℕ)
    → 0 < n
    → n < 64
    → 64 < length rest
    → length rest < 2 ^ 63
    → read_arg i (argv, buf, minus_line n ++ rest) ≡ overran i (length rest)
unfolding read_arg
read_arg_overruns i n argv buf rest more lt many small =
    let buf1 = overwrite (minus_line n) buf in
    ap (λ r. r >>= after_head i argv buf) (take_minus_line n rest lt)
    ∙ (if_false (length (minus_line n) == 0 || false) _ _ (ground arith)
        ∙ (ap (read_bulk i argv buf1 rest) (
              ap (λ z. atoi (b'-' ∷ z))
                (append_assoc (decimal n) crlf (drop (length (minus_line n)) buf))
              ∙ atoi-minus n b'\r' (newline ∷ drop (length (minus_line n)) buf) more lt refl)
            ∙ read_bulk_minus i (n - 1) argv buf1 rest (omega arith) many small))
