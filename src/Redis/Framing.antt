-- ===== src/Redis/Framing.antt =====
-- vk_redis.c: what the server reads of the commands that the client writes.
use mathlib.Core.List.{append_assoc}
use mnvkd.Base.{
  ℕ, zero, suc, ◌+◌, ◌<◌, ◌≤◌, pos, Bool, true, false, not, ◌&&◌, ◌||◌, ltb, leb, ◌==◌, if_true,
  if_false, some, List, [], ◌∷◌, ◌++◌, drop, length, length-append, ◌≡◌, refl, sym, ap, ap₂, ◌∙◌,
  arith,
}
use mnvkd.Stream.{newline, read_line, read_bytes, overwrite, atoi, decimal}
use mnvkd.Stream.Laws.{
  is_line, is_line-append, read_line-newline, read_bytes-append, atoi-decimal, decimal_line,
}
use mnvkd.Redis.{Query, set_arg, max_args}
use mnvkd.Redis.Request.{
  done, ◌>>=◌, fits_line, after_head, after_bytes, after_bulk, after_count, read_bulk, read_arg,
  read_args, as_query, with_count, read_query,
}
use mnvkd.Redis.Client.{crlf, bulk_text, bulks_text, command_text}

-- The line that starts with a character and a number.
abbrev pub number_line : ℕ → ℕ → List ℕ
number_line c n = c ∷ decimal n ++ crlf

-- Such a line is read whole.
pub read_number_line :
    (m c n : ℕ) (rest : List ℕ)
    → 10 < m
    → n < 64
    → (c == newline) ≡ false
    → read_line m (number_line c n ++ rest) ≡ (number_line c n, rest)
read_number_line m c n rest room lt e =
    let (plain, short) = decimal_line n lt in
    let line : List ℕ = c ∷ decimal n ++ (b'\r' ∷ []) in
    let plain_line : is_line line ≡ true =
      ground (arith, is_line-append (decimal n) (b'\r' ∷ [])) in
    let few : length line < m = omega (arith, length-append {0} (decimal n) (b'\r' ∷ [])) in
    let whole : number_line c n ≡ line ++ (newline ∷ []) =
      ap (λ z. c ∷ z) (sym (append_assoc (decimal n) (b'\r' ∷ []) (newline ∷ []))) in
    let text : number_line c n ++ rest ≡ line ++ (newline ∷ rest) =
      ap (λ z. z ++ rest) whole ∙ append_assoc line (newline ∷ []) rest in
    ap (read_line m) text
    ∙ (read_line-newline m line rest plain_line few ∙ ap (λ z. (z, rest)) (sym whole))

-- It fits the buffer.
pub take_number_line :
    (size m c n : ℕ) (rest : List ℕ)
    → 10 < size
    → 10 < m
    → n < 64
    → (c == newline) ≡ false
    → fits_line size (read_line m (number_line c n ++ rest)) ≡ done (number_line c n, rest)
take_number_line size m c n rest large room lt e =
    let (_, short) = decimal_line n lt in
    ap (fits_line size) (read_number_line m c n rest room lt e)
    ∙ if_false (ltb size (length (number_line c n))) _ _
        (ground (arith, short, length-append {0} (decimal n) crlf))

-- An argument and its end are read as they were written.
read_bulk_lem :
    (i : ℕ) (argv : ℕ → List ℕ) (buf arg rest : List ℕ)
    → length arg < 64
    → read_bulk i argv buf (arg ++ (crlf ++ rest)) (pos (length arg))
      ≡ done (set_arg argv i arg, overwrite crlf buf, rest)
read_bulk_lem i argv buf arg rest lt =
    ap (λ len. after_bytes i argv buf len (read_bytes len (arg ++ (crlf ++ rest))))
      (if_false (leb 64 (length arg)) 63 (length arg) (ground arith))
    ∙ (ap (after_bytes i argv buf (length arg)) (read_bytes-append arg (crlf ++ rest))
        ∙ (if_false (not (length arg == length arg)) _ _ (ground arith)
            ∙ ap (λ r. fits_line 128 r >>= after_bulk i argv buf arg)
                (read_line-newline 127 (b'\r' ∷ []) rest refl (omega arith))))

-- What the line buffer starts with.
pub number_at : (c n : ℕ) (rest : List ℕ) → n < 64 → atoi (drop 1 (number_line c n ++ rest)) ≡ pos n
number_at c n rest lt =
    ap atoi (append_assoc (decimal n) crlf rest) ∙ atoi-decimal n b'\r' (newline ∷ rest) lt refl

read_arg_lem :
    (i : ℕ) (argv : ℕ → List ℕ) (buf arg rest : List ℕ)
    → length arg < 64
    → (buf' : List ℕ) × (read_arg i (argv, buf, bulk_text arg ++ rest)
        ≡ done (set_arg argv i arg, buf', rest))
unfolding read_arg bulk_text
read_arg_lem i argv buf arg rest lt =
    let n = length arg in
    let head = number_line b'$' n in
    let text : (head ++ (arg ++ crlf)) ++ rest ≡ head ++ (arg ++ (crlf ++ rest)) =
      append_assoc head (arg ++ crlf) rest ∙ ap (λ z. head ++ z) (append_assoc arg crlf rest) in
    let buf1 = overwrite head buf in
    (
      overwrite crlf buf1,
      ap (λ z. fits_line 128 (read_line 127 z) >>= after_head i argv buf) text
          ∙ (ap (λ r. r >>= after_head i argv buf)
                (take_number_line 128 127 b'$' n (arg ++ (crlf ++ rest)) (omega arith) (omega arith)
                  lt refl)
              ∙ (if_false (length head == 0 || false) _ _ (ground arith)
                  ∙ (ap (read_bulk i argv buf1 (arg ++ (crlf ++ rest)))
                        (number_at b'$' n (drop (length head) buf) lt)
                      ∙ read_bulk_lem i argv buf1 arg rest lt))),
    )

-- The arguments of a query from `i` on, `n` of them.
abbrev pub arguments_from : (ℕ → List ℕ) → ℕ → ℕ → List (List ℕ)
arguments_from argv i zero = []
arguments_from argv i (suc n) = argv i ∷ arguments_from argv (i + 1) n

abbrev pub arguments : Query → List (List ℕ)
arguments q = arguments_from q.argv 0 q.argc

-- Arguments that fit their buffers.
abbrev pub all_short : List (List ℕ) → Bool
all_short [] = true
all_short (arg ∷ args) = ltb (length arg) 64 && all_short args

read_args_lem :
    (i : ℕ) (argv : ℕ → List ℕ) (buf : List ℕ) (args : List (List ℕ)) (rest : List ℕ)
    → all_short args ≡ true
    → (argv' : ℕ → List ℕ) × (buf' : List ℕ) × (read_args
          (length args)
          i
          (argv, buf, bulks_text args ++ rest)
        ≡ done (argv', buf', rest))
      × (arguments_from argv' i (length args) ≡ args)
      × ((k : ℕ) → k < i → argv' k ≡ argv k)
unfolding read_args bulks_text
read_args_lem i argv buf [] rest h = (argv, buf, refl, refl, λ k lt. refl)
read_args_lem i argv buf (arg ∷ args) rest h =
    let (buf1, read) = read_arg_lem i argv buf arg (bulks_text args ++ rest) (ground arith) in
    let (argv', buf', more, same, kept) =
      read_args_lem (i + 1) (set_arg argv i arg) buf1 args rest (ground arith) in
    (
      argv',
      buf',
      ap (λ z. read_arg i (argv, buf, z) >>= λ args'. read_args (length args) (i + 1) args')
            (append_assoc (bulk_text arg) (bulks_text args) rest)
          ∙ (ap (λ r. r >>= λ args'. read_args (length args) (i + 1) args') read ∙ more),
      ap₂ ◌∷◌ (kept i (omega arith) ∙ if_true (i == i) arg (argv i) (ground arith)) same,
      λ k lt. kept k (omega arith) ∙ if_false (k == i) arg (argv k) (ground arith),
    )

-- Reading what is written for a command gives a query with its arguments, and the flags that they
-- set.
pub read_query_lem :
    (argv : ℕ → List ℕ) (buf : List ℕ) (args : List (List ℕ)) (rest : List ℕ)
    → all_short args ≡ true
    → 0 < length args
    → length args ≤ 8
    → (argv' : ℕ → List ℕ) × (buf' : List ℕ) × (read_query (argv, buf, command_text args ++ rest)
        ≡ done (some (as_query (length args) (argv', buf', rest))))
      × (arguments_from argv' 0 (length args) ≡ args)
unfolding read_query command_text
read_query_lem argv buf args rest h some_args few =
    let n = length args in
    let head = number_line b'*' n in
    let buf1 = overwrite (head ++ (0 ∷ [])) buf in
    let (argv', buf', read, same, _) = read_args_lem 0 argv buf1 args rest h in
    (
      argv',
      buf',
      ap (λ z. fits_line 127 (read_line 127 z) >>= after_count argv buf)
            (append_assoc head (bulks_text args) rest)
          ∙ (ap (λ r. r >>= after_count argv buf)
                (take_number_line 127 127 b'*' n (bulks_text args ++ rest) (omega arith)
                  (omega arith) (omega arith) refl)
              ∙ (if_false (length head == 0) _ _ (ground arith)
                  ∙ (ap (with_count (argv, buf1, bulks_text args ++ rest)) (
                        ap (λ z. atoi (drop 1 z))
                          (append_assoc head (0 ∷ []) (drop (length (head ++ (0 ∷ []))) buf))
                        ∙ number_at b'*' n (0 ∷ drop (length (head ++ (0 ∷ []))) buf) (omega arith))
                      ∙ (if_false (n == 0 || ltb max_args n) _ _ (ground arith)
                          ∙ ap (λ r. r >>= λ args'. done (some (as_query n args'))) read)))),
      same,
    )
