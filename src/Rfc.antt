-- ===== src/Rfc.antt =====
-- vk_rfc.c: the lines of a header, and the macros of vk_rfc.h that write one. A character is its code,
-- a line the list of its `size` characters, and a string ends before a NUL.
mod Bits
pub mod Hex
pub mod Digits
pub mod Sizes
pub mod Chunks
use mnvkd.Base.{
  if_true, if_false, ℕ, zero, suc, ◌+◌, ◌<◌, ℤ, pos, negsuc, Bool, true, false, not, ◌&&◌, ◌||◌,
  if◌then◌else◌, ◌==◌, ltb, length, Option, some, none, List, [], ◌∷◌, ◌++◌, ◌≡◌, refl, ◌∙◌, ap,
  arith,
}

abbrev pub newline : ℕ
newline = 10

abbrev pub return : ℕ
return = 13

abbrev pub space : ℕ
space = 32

abbrev pub colon : ℕ
colon = 58

abbrev pub tab : ℕ
tab = 9

-- One of the two tests of `rtrim`: the last character goes where it is `c`.
unfoldable pub trim_last : ℕ → List ℕ → List ℕ
trim_last c [] = []
trim_last c (x ∷ []) = if x == c then [] else x ∷ []
trim_last c (x ∷ y ∷ rest) = x ∷ trim_last c (y ∷ rest)

unfoldable pub rtrim : List ℕ → List ℕ
rtrim line = trim_last return (trim_last newline line)

abbrev pub is_positive : ℤ → Bool
is_positive (pos n) = ltb 0 n
is_positive (negsuc _) = false

-- `words k` is what stands `k` places before the size in memory: the loop counts the pointer to the
-- size down, and not the size.
unfoldable pub ltrim : (ℕ → ℤ) → List ℕ → List ℕ
ltrim words [] = []
ltrim words (x ∷ line) =
    let rest = ltrim (λ k. words (k + 1)) line in
    if is_positive (words 0) && x == space then rest else x ∷ line

-- `below k` is what stands `k + 1` places before the local `size`.
abbrev pub size_and : ℕ → (ℕ → ℤ) → ℕ → ℤ
size_and size below zero = pos size
size_and size below (suc k) = below k

unfoldable pub ltrimlen : (ℕ → ℤ) → List ℕ → List ℕ
ltrimlen below line = ltrim (size_and (length line) below) line

-- What a string function reads of a line.
abbrev pub c_string : List ℕ → List ℕ
c_string [] = []
c_string (x ∷ line) = let rest = c_string line in if x == 0 then [] else x ∷ rest

abbrev pub is_delimiter : ℕ → Bool
is_delimiter c = c == colon || (c == space || c == tab)

-- `strsep(&tok, ": \t")`: the token, and what `tok` then points to.
abbrev pub strsep : List ℕ → List ℕ × Option (List ℕ)
strsep [] = ([], none)
strsep (x ∷ line) =
    let (token, tok) = strsep line in if is_delimiter x then ([], some line) else (x ∷ token, tok)

-- What `parse_header` returns, and what it leaves in `key_ptr` and `val_ptr`.
pub record Header : Type 0 where
  pub rc : ℕ
  pub key : Option (List ℕ)
  pub val : Option (List ℕ)

abbrev pub header_value : (ℕ → ℤ) → List ℕ × Option (List ℕ) → Header
header_value below (key, none) = record { rc = 0; key = some key; val = none }
header_value below (key, some tok) = record {
  rc = 1;
  key = some key;
  val = some (ltrimlen below tok);
}

abbrev pub parse_line : (ℕ → ℤ) → List ℕ → Header
parse_line below [] = record { rc = 0; key = none; val = none }
parse_line below (x ∷ line) = header_value below (strsep (c_string (x ∷ line)))

unfoldable pub parse_header : (ℕ → ℤ) → List ℕ → Header
parse_header below line = parse_line below (rtrim line)

-- The four writes of `vk_socket_writerfcheader`.
unfoldable pub header_text : List ℕ → List ℕ → List ℕ
header_text key val = key ++ (colon ∷ space ∷ val) ++ (return ∷ newline ∷ [])

-- The characters that a string, and a key, may have.
abbrev pub is_string : List ℕ → Bool
is_string [] = true
is_string (x ∷ line) = not (x == 0) && is_string line

abbrev pub is_key : List ℕ → Bool
is_key [] = true
is_key (x ∷ line) = (not (x == 0) && not (is_delimiter x)) && is_key line

abbrev pub is_trimmed : List ℕ → Bool
is_trimmed [] = true
is_trimmed (x ∷ _) = not (x == space)

trim_last_end : (c : ℕ) (line : List ℕ) → trim_last c (line ++ (c ∷ [])) ≡ line
unfolding trim_last
trim_last_end c [] = ground arith
trim_last_end c (x ∷ []) = ap (λ r. x ∷ r) (trim_last_end c [])
trim_last_end c (x ∷ y ∷ line) = ap (λ r. x ∷ r) (trim_last_end c (y ∷ line))

append_two : (line : List ℕ) (a b : ℕ) → line ++ (a ∷ b ∷ []) ≡ (line ++ (a ∷ [])) ++ (b ∷ [])
append_two [] a b = refl
append_two (x ∷ line) a b = ap (λ r. x ∷ r) (append_two line a b)

pub rtrim_end : (line : List ℕ) → rtrim (line ++ (return ∷ newline ∷ [])) ≡ line
unfolding rtrim
rtrim_end line =
    ap (λ r. trim_last return (trim_last newline r)) (append_two line return newline)
    ∙ (ap (trim_last return) (trim_last_end newline (line ++ (return ∷ [])))
        ∙ trim_last_end return line)

pub c_string_all : (line : List ℕ) → is_string line ≡ true → c_string line ≡ line
c_string_all [] h = refl
c_string_all (x ∷ line) h = ground (arith, c_string_all line)

c_string_key :
    (key line : List ℕ) → is_key key ≡ true → c_string (key ++ line) ≡ key ++ c_string line
c_string_key [] line h = refl
c_string_key (x ∷ key) line h = ground (arith, c_string_key key line)

strsep_key :
    (key line : List ℕ) → is_key key ≡ true → strsep (key ++ (colon ∷ line)) ≡ (key, some line)
strsep_key [] line h = refl
strsep_key (x ∷ key) line h =
    let rest = strsep (key ++ (colon ∷ line)) in
    if_false (is_delimiter x) ([], some (key ++ (colon ∷ line))) (x ∷ rest.0, rest.1) (ground arith)
    ∙ ap (λ r. (x ∷ r.0, r.1)) (strsep_key key line (ground arith))

-- A value that does not start with a space loses the one before it, whatever stands before the size
-- in memory.
ltrim_kept : (words : ℕ → ℤ) (val : List ℕ) → is_trimmed val ≡ true → ltrim words val ≡ val
unfolding ltrim
ltrim_kept words [] h = refl
ltrim_kept words (x ∷ val) h = ground arith

ltrimlen-space :
    (below : ℕ → ℤ) (val : List ℕ) → is_trimmed val ≡ true → ltrimlen below (space ∷ val) ≡ val
unfolding ltrimlen ltrim
ltrimlen-space below val h =
    if_true (ltb 0 (suc (length val)) && true)
      (ltrim (λ k. size_and (length (space ∷ val)) below (k + 1)) val) (space ∷ val) (ground arith)
    ∙ ltrim_kept (λ k. size_and (length (space ∷ val)) below (k + 1)) val h

rtrim_header : (key val : List ℕ) → rtrim (header_text key val) ≡ key ++ (colon ∷ space ∷ val)
unfolding header_text
rtrim_header key val = rtrim_end (key ++ (colon ∷ space ∷ val))

parse_nonempty :
    (below : ℕ → ℤ) (key line : List ℕ)
    → parse_line below (key ++ (colon ∷ line))
      ≡ header_value below (strsep (c_string (key ++ (colon ∷ line))))
parse_nonempty below [] line = refl
parse_nonempty below (x ∷ key) line = refl

-- A line that has been trimmed.
pub parse_line_lem :
    (below : ℕ → ℤ) (key val : List ℕ)
    → is_key key ≡ true
    → is_string val ≡ true
    → is_trimmed val ≡ true
    → parse_line below (key ++ (colon ∷ space ∷ val))
      ≡ record { rc = 1; key = some key; val = some val }
parse_line_lem below key val k v t =
    parse_nonempty below key (space ∷ val)
    ∙ (ap (λ r. header_value below (strsep r)) (c_string_key key (colon ∷ space ∷ val) k)
        ∙ (ap (λ r. header_value below (strsep (key ++ (colon ∷ space ∷ r)))) (c_string_all val v)
            ∙ (ap (header_value below) (strsep_key key (space ∷ val) k)
                ∙ ap (λ r. record { rc = 1; key = some key; val = some r })
                    (ltrimlen-space below val t))))

-- Parsing what the macro writes for a header gives its key and its value back: for a key without a
-- NUL, a colon, a space or a tab, and a value without a NUL that does not start with a space,
-- whatever stands in memory before the size that is trimmed.
pub parse_header-header_text :
    (below : ℕ → ℤ) (key val : List ℕ)
    → is_key key ≡ true
    → is_string val ≡ true
    → is_trimmed val ≡ true
    → parse_header below (header_text key val) ≡ record { rc = 1; key = some key; val = some val }
unfolding parse_header
parse_header-header_text below key val k v t =
    ap (parse_line below) (rtrim_header key val) ∙ parse_line_lem below key val k v t

-- A line after `n` spaces.
abbrev spaced : ℕ → List ℕ → List ℕ
spaced zero line = line
spaced (suc n) line = space ∷ spaced n line

-- Where the `n` words from the size down are positive and the next one is not, `ltrim` drops `n` of
-- the spaces that a line starts with, and leaves those that follow.
ltrim-spaced :
    (n : ℕ) (words : ℕ → ℤ) (line : List ℕ)
    → ((k : ℕ) → k < n → is_positive (words k) ≡ true)
    → is_positive (words n) ≡ false
    → ltrim words (spaced n line) ≡ line
unfolding ltrim
ltrim-spaced zero words [] h e = refl
ltrim-spaced zero words (x ∷ line) h e =
    if_false (is_positive (words 0) && x == space) _ _ (ground arith)
ltrim-spaced (suc n) words line h e =
    if_true (is_positive (words 0) && true) _ _ (ground (arith, h 0 (omega arith)))
    ∙ ltrim-spaced n (λ k. words (k + 1)) line (λ k g. h (k + 1) (omega arith))
        (ap (λ i. is_positive (words i)) (omega arith) ∙ e)
