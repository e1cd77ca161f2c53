-- ===== src/Stream/Laws.antt =====
-- What is read of a line and of a number that were written.
use mnvkd.Base.{
  ℕ, ◌+◌, ◌*◌, ◌-◌, ◌<◌, ◌^◌, pos, negsuc, Bool, true, false, not, ◌&&◌, ◌==◌, ltb, if_true,
  if_false, some, List, [], ◌∷◌, ◌++◌, length, take-append, drop-append, min, all_below,
  all_below_lem, ◌≡◌, refl, sym, ap, ap₂, ◌∙◌, arith,
}
use mnvkd.Heap.{to_int}
use mnvkd.Stream.{
  newline, read_bytes, split_line, with_first, or_bytes, read_line, is_digit, is_space,
  digits_value, skip_spaces, signed_value, atoi, decimal, decimal_digits,
}

-- A text without a newline.
abbrev pub is_line : List ℕ → Bool
is_line [] = true
is_line (c ∷ s) = not (c == newline) && is_line s

pub is_line-append : (s t : List ℕ) → is_line s ≡ true → is_line t ≡ true → is_line (s ++ t) ≡ true
is_line-append [] t h k = k
is_line-append (x ∷ s) t h k = ground (arith, is_line-append s t)

pub split_line-newline :
    (line rest : List ℕ)
    → is_line line ≡ true
    → split_line (line ++ (newline ∷ rest)) ≡ some (line ++ (newline ∷ []), rest)
unfolding split_line
split_line-newline [] rest h = refl
split_line-newline (c ∷ line) rest h =
    if_false (c == newline) _ _ (ground arith)
    ∙ ap (with_first c) (split_line-newline line rest (ground arith))

-- A line is read up to its newline.
pub read_line-newline :
    (n : ℕ) (line rest : List ℕ)
    → is_line line ≡ true
    → length line < n
    → read_line n (line ++ (newline ∷ rest)) ≡ (line ++ (newline ∷ []), rest)
unfolding read_line
read_line-newline n line rest h lt =
    ap (or_bytes n (line ++ (newline ∷ rest))) (split_line-newline line rest h)

pub read_bytes-append :
    (bytes rest : List ℕ) → read_bytes (length bytes) (bytes ++ rest) ≡ (bytes, rest)
unfolding read_bytes
read_bytes-append bytes rest =
    ap₂ (λ a b. (a, b)) (take-append bytes rest (length bytes) refl)
      (drop-append bytes rest (length bytes) refl)

abbrev pub all_digits : List ℕ → Bool
all_digits [] = true
all_digits (c ∷ s) = is_digit c && all_digits s

-- The digits end at a character that is none.
digits_value-append :
    (acc c : ℕ) (s rest : List ℕ)
    → all_digits s ≡ true
    → is_digit c ≡ false
    → digits_value acc (s ++ (c ∷ rest)) ≡ digits_value acc s
unfolding digits_value
digits_value-append acc c [] rest h e = if_false (is_digit c) _ _ e
digits_value-append acc c (d ∷ s) rest h e =
    if_true (is_digit d) _ _ (ground arith)
    ∙ (digits_value-append (acc * 10 + (d - 48)) c s rest (ground arith) e
        ∙ sym (if_true (is_digit d) _ _ (ground arith)))

-- Texts that `atoi` reads as they stand: digits, and what ends them.
atoi-digits :
    (d c : ℕ) (s rest : List ℕ)
    → all_digits (d ∷ s) ≡ true
    → is_digit c ≡ false
    → atoi (d ∷ s ++ (c ∷ rest)) ≡ to_int (min (digits_value 0 (d ∷ s)) (2 ^ 63 - 1))
unfolding atoi skip_spaces
atoi-digits d c s rest h e =
    let plain : is_space d ≡ false = ground arith in
    let minus : (d == b'-') ≡ false = ground arith in
    let plus : (d == b'+') ≡ false = ground arith in
    ap signed_value (if_false (is_space d) _ _ plain)
    ∙ (if_false (d == b'-') _ _ minus
        ∙ (ap (λ z. to_int (min (digits_value 0 z) (2 ^ 63 - 1))) (if_false (d == b'+') _ _ plus)
            ∙ ap (λ v. to_int (min v (2 ^ 63 - 1))) (digits_value-append 0 c (d ∷ s) rest h e)))

-- The numbers that the program writes as lengths and counts.
abbrev good_number : List ℕ → ℕ → Bool
good_number [] n = false
good_number (d ∷ s) n = all_digits (d ∷ s) && (digits_value 0 (d ∷ s) == n && ltb (length s) 2)

numbers_good : all_below 64 (λ n. good_number (decimal n) n) ≡ true
unfolding all_below decimal decimal_digits digits_value
numbers_good = refl

good_number_lem : (n : ℕ) → n < 64 → good_number (decimal n) n ≡ true
good_number_lem n h = all_below_lem 64 (λ k. good_number (decimal k) k) n numbers_good h

to_int_small : (n : ℕ) → n < 64 → to_int (min n (2 ^ 63 - 1)) ≡ pos n
to_int_small n h = ground arith

good_number-atoi :
    (s : List ℕ) (n c : ℕ) (rest : List ℕ)
    → good_number s n ≡ true
    → n < 64
    → is_digit c ≡ false
    → atoi (s ++ (c ∷ rest)) ≡ pos n
good_number-atoi [] n c rest h lt e = cc h
good_number-atoi (d ∷ s) n c rest h lt e =
    let digits : all_digits (d ∷ s) ≡ true = ground arith in
    let same : digits_value 0 (d ∷ s) ≡ n = ground arith in
    atoi-digits d c s rest digits e
    ∙ (ap (λ v. to_int (min v (2 ^ 63 - 1))) same ∙ to_int_small n lt)

-- A small number is read back, whatever stands behind the character that ends it.
pub atoi-decimal :
    (n c : ℕ) (rest : List ℕ) → n < 64 → is_digit c ≡ false → atoi (decimal n ++ (c ∷ rest)) ≡ pos n
atoi-decimal n c rest lt e = good_number-atoi (decimal n) n c rest (good_number_lem n lt) lt e

digits_line : (s : List ℕ) → all_digits s ≡ true → is_line s ≡ true
digits_line [] h = refl
digits_line (c ∷ s) h = ground (arith, digits_line s)

good_number_line :
    (s : List ℕ) (n : ℕ) → good_number s n ≡ true → (is_line s ≡ true) × (length s < 4)
good_number_line [] n h = cc h
good_number_line (d ∷ s) n h = (digits_line (d ∷ s) (ground arith), ground arith)

pub decimal_line : (n : ℕ) → n < 64 → (is_line (decimal n) ≡ true) × (length (decimal n) < 4)
decimal_line n h = good_number_line (decimal n) n (good_number_lem n h)

-- A negative small number is read back.
good_number-minus :
    (s : List ℕ) (n c : ℕ) (rest : List ℕ)
    → good_number s n ≡ true
    → 0 < n
    → n < 64
    → is_digit c ≡ false
    → atoi (b'-' ∷ s ++ (c ∷ rest)) ≡ negsuc (n - 1)
unfolding atoi skip_spaces
good_number-minus [] n c rest h more lt e = cc h
good_number-minus (d ∷ s) n c rest h more lt e =
    let digits : all_digits (d ∷ s) ≡ true = ground arith in
    let same : digits_value 0 (d ∷ s) ≡ n = ground arith in
    ap (λ v. to_int (2 ^ 64 - min v (2 ^ 63)))
      (digits_value-append 0 c (d ∷ s) rest digits e ∙ same)
    ∙ negative n more lt
  where
    negative : (k : ℕ) → 0 < k → k < 64 → to_int (2 ^ 64 - min k (2 ^ 63)) ≡ negsuc (k - 1)
    negative k h lt = ground arith

pub atoi-minus :
    (n c : ℕ) (rest : List ℕ)
    → 0 < n
    → n < 64
    → is_digit c ≡ false
    → atoi (b'-' ∷ decimal n ++ (c ∷ rest)) ≡ negsuc (n - 1)
atoi-minus n c rest more lt e =
    good_number-minus (decimal n) n c rest (good_number_lem n lt) more lt e
