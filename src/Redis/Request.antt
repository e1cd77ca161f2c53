-- ===== src/Redis/Request.antt =====
-- `redis_request`: the commands that a connection sends, read and passed on to the responder.
use mnvkd.Base.{
  ℕ, zero, suc, ◌+◌, ℤ, pos, negsuc, to_size, Bool, true, false, not, ◌&&◌, ◌||◌, ltb, leb, ◌==◌,
  if◌then◌else◌, Option, some, none, List, [], ◌∷◌, ◌++◌, drop, length, codes, epipe, einval,
}
use mnvkd.Stream.{read_bytes, read_line, overwrite, atoi}
use mnvkd.Redis.{max_args, max_bulk, Query, no_query, set_arg, is_word}

-- How reading goes: `overran i n` where `n` bytes are copied to the buffer of argument `i`, which has
-- fewer, and `overran_line n` where a line of `n` bytes is copied to the line buffer.
pub data Reading {ℓ} (A : Type ℓ) : Type ℓ where
  done : A → Reading A
  raised : ℕ → Reading A
  overran : ℕ → ℕ → Reading A
  overran_line : ℕ → Reading A

infixl 5 ◌>>=◌
abbrev pub ◌>>=◌ {ℓ κ} : {A : Type ℓ} {B : Type κ} → Reading A → (A → Reading B) → Reading B
done a >>= f = f a
raised e >>= f = raised e
overran i n >>= f = overran i n
overran_line n >>= f = overran_line n

-- A line in a buffer that has room for `size` bytes.
abbrev pub fits_line : ℕ → List ℕ × List ℕ → Reading (List ℕ × List ℕ)
fits_line size (line, rest) =
    if ltb size (length line) then overran_line (length line) else done (line, rest)

-- `line[0] == c`
abbrev pub starts : ℕ → List ℕ → Bool
starts c [] = false
starts c (x ∷ _) = x == c

-- The arguments, the line buffer, and what is left to read.
abbrev pub Args : Type 0
Args = (ℕ → List ℕ) × List ℕ × List ℕ

-- The line that an argument ends with.
abbrev pub after_bulk : ℕ → (ℕ → List ℕ) → List ℕ → List ℕ → List ℕ × List ℕ → Reading Args
after_bulk i argv buf bytes (line, rest) =
    if length line == 0 then raised epipe else done (set_arg argv i bytes, overwrite line buf, rest)

-- The bytes that were read of an argument of `len` bytes.
abbrev pub after_bytes : ℕ → (ℕ → List ℕ) → List ℕ → ℕ → List ℕ × List ℕ → Reading Args
after_bytes i argv buf len (bytes, rest) =
    if not (length bytes == len)
    then raised epipe
    else (fits_line 128 (read_line 127 rest) >>= after_bulk i argv buf bytes)

-- An argument of `len` bytes. A negative length is a huge `size_t`.
abbrev pub read_bulk : ℕ → (ℕ → List ℕ) → List ℕ → List ℕ → ℤ → Reading Args
read_bulk i argv buf input (negsuc k) =
    let (bytes, _) = read_bytes (to_size (negsuc k)) input in
    if ltb max_bulk (length bytes) then overran i (length bytes) else raised epipe
read_bulk i argv buf input (pos n) =
    let len = if leb max_bulk n then 63 else n in after_bytes i argv buf len (read_bytes len input)

-- The line with the length of an argument.
abbrev pub after_head : ℕ → (ℕ → List ℕ) → List ℕ → List ℕ × List ℕ → Reading Args
after_head i argv buf (line, rest) =
    if length line == 0 || not (starts b'$' (overwrite line buf))
    then raised epipe
    else read_bulk i argv (overwrite line buf) rest (atoi (drop 1 (overwrite line buf)))

unfoldable pub read_arg : ℕ → Args → Reading Args
unfolding read_line read_bytes atoi
read_arg i (argv, buf, input) = fits_line 128 (read_line 127 input) >>= after_head i argv buf

-- The loop over the arguments, from `i` on, with `n` to go.
unfoldable pub read_args : ℕ → ℕ → Args → Reading Args
read_args zero i args = done args
read_args (suc n) i args = read_arg i args >>= λ args'. read_args n (i + 1) args'

-- The flags that the first argument sets.
abbrev pub set_flags : Query → Query
set_flags q =
    let stop = is_word (q.argv 0) (codes "SHUTDOWN") in
    record q { shutdown = stop; close = if stop then true else is_word (q.argv 0) (codes "QUIT") }

abbrev pub as_query : ℕ → Args → Query × List ℕ × List ℕ
as_query n (argv, buf, input) =
    (set_flags (record { argc = n; close = false; shutdown = false; argv = argv }), buf, input)

abbrev pub with_count : Args → ℤ → Reading (Option (Query × List ℕ × List ℕ))
with_count args (negsuc k) = raised einval
with_count args (pos n) =
    if n == 0 || ltb max_args n
    then raised einval
    else (read_args n 0 args >>= λ args'. done (some (as_query n args')))

-- The line with the number of arguments, with a NUL behind it.
abbrev pub after_count :
    (ℕ → List ℕ) → List ℕ → List ℕ × List ℕ → Reading (Option (Query × List ℕ × List ℕ))
after_count argv buf (line, rest) =
    let buf1 = overwrite (line ++ (0 ∷ [])) buf in
    if length line == 0
    then done none
    else (if not (starts b'*' buf1)
        then raised einval
        else with_count (argv, buf1, rest) (atoi (drop 1 buf1)))

-- One round up to the query that is passed on, or none at end of file.
unfoldable pub read_query : Args → Reading (Option (Query × List ℕ × List ℕ))
unfolding read_args read_line atoi
read_query (argv, buf, input) = fits_line 127 (read_line 127 input) >>= after_count argv buf

-- What the responder is sent.
pub data Event : Type 0 where
  sent : Query → Event
  flushed : Event
  tx_closed : Event
  hung_up : Event

-- How the coroutine comes to `vk_finally`.
pub data End : Type 0 where
  finished : End
  failed : ℕ → End
  overrun : ℕ → ℕ → End
  overrun_line : ℕ → End
  no_fuel : End

abbrev pub is_nil : List ℕ → Bool
is_nil [] = true
is_nil (_ ∷ _) = false

-- After end of file without a command that closes.
abbrev pub end_of_input : List Event
end_of_input = sent (record no_query { close = true }) ∷ flushed ∷ hung_up ∷ flushed ∷ []

abbrev pub pass_on :
    (Args → List Event × End) → Bool → Reading (Option (Query × List ℕ × List ℕ)) → List Event × End
pass_on next eof (raised e) = ([], failed e)
pass_on next eof (overran i n) = ([], overrun i n)
pass_on next eof (overran_line n) = ([], overrun_line n)
pass_on next eof (done none) = (end_of_input, finished)
pass_on next eof (done (some (q, buf, rest))) =
    let (events, end) = next (q.argv, buf, rest) in
    if q.close
    then (sent q ∷ flushed ∷ tx_closed ∷ flushed ∷ [], finished)
    else (if eof && is_nil rest
        then (sent q ∷ flushed ∷ end_of_input, finished)
        else (sent q ∷ flushed ∷ events, end))

-- The loop, with fuel. `eof k` says whether end of file has been seen when round `k` ends, for
-- `vk_nodata`.
unfoldable pub requests : ℕ → (ℕ → Bool) → Args → List Event × End
requests zero eof args = ([], no_fuel)
requests (suc fuel) eof args =
    pass_on (λ args'. requests fuel (λ k. eof (k + 1)) args') (eof 0) (read_query args)
