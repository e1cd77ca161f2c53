-- ===== src/Redis/Client.antt =====
-- `redis_client_request` and `redis_client_response`: lines of words as commands of the protocol, and
-- replies of the protocol as lines.
use mnvkd.Base.{
  ℕ, zero, suc, ◌+◌, Bool, true, false, ◌&&◌, ◌||◌, ◌==◌, ltb, if◌then◌else◌, List, [], ◌∷◌, ◌++◌,
  take, length, codes,
}
use mnvkd.Rfc.{c_string}
use mnvkd.Stream.{read_line, decimal}
use mnvkd.Redis.{max_args, is_word}

-- The delimiters of `strtok`
abbrev pub is_delimiter : ℕ → Bool
is_delimiter c = c == 32 || (c == b'\r' || c == b'\n')

abbrev pub push_word : List ℕ → List (List ℕ) → List (List ℕ)
push_word [] words = words
push_word (c ∷ w) words = (c ∷ w) ∷ words

-- The word that a text starts with, and those after it.
unfoldable pub words_from : List ℕ → List ℕ × List (List ℕ)
words_from [] = ([], [])
words_from (c ∷ s) =
    let (word, words) = words_from s in
    if is_delimiter c then ([], push_word word words) else (c ∷ word, words)

-- The words that the calls of `strtok` give.
unfoldable pub strtok_all : List ℕ → List (List ℕ)
strtok_all s = let (word, words) = words_from s in push_word word words

abbrev pub crlf : List ℕ
crlf = b'\r' ∷ b'\n' ∷ []

abbrev pub map_take : ℕ → List (List ℕ) → List (List ℕ)
map_take n [] = []
map_take n (w ∷ words) = take n w ∷ map_take n words

-- The arguments that the loop over the words stores.
unfoldable pub arguments_of : List ℕ → List (List ℕ)
unfolding strtok_all words_from
arguments_of line = map_take 63 (take max_args (strtok_all (c_string line)))

unfoldable pub bulk_text : List ℕ → List ℕ
bulk_text arg = (b'$' ∷ decimal (length arg) ++ crlf) ++ (arg ++ crlf)

unfoldable pub bulks_text : List (List ℕ) → List ℕ
bulks_text [] = []
bulks_text (arg ∷ args) = bulk_text arg ++ bulks_text args

-- What is written for a command. Its two formatted lines fit their buffer, which has 256 bytes.
unfoldable pub command_text : List (List ℕ) → List ℕ
command_text args = (b'*' ∷ decimal (length args) ++ crlf) ++ bulks_text args

-- Whether a command sets `close`, which `SHUTDOWN` and `QUIT` do.
abbrev pub closes : List (List ℕ) → Bool
closes [] = false
closes (arg ∷ _) = if is_word arg (codes "SHUTDOWN") then true else is_word arg (codes "QUIT")

abbrev pub is_empty : List (List ℕ) → Bool
is_empty [] = true
is_empty (_ ∷ _) = false

abbrev pub is_done : List ℕ → Bool
is_done [] = true
is_done (_ ∷ _) = false

-- The loop over the lines, with fuel: what is written before the close, and whether that is
-- reached, which it is not where a line overruns the buffer of 256 bytes.
-- An empty line goes on to the test of the loop, where `close` is 0.
unfoldable pub client_requests : ℕ → (ℕ → Bool) → List ℕ → List ℕ × Bool
client_requests zero eof input = ([], false)
client_requests (suc fuel) eof input =
    let (line, rest) = read_line 255 input in
    let args = arguments_of line in
    let (out, ended) = client_requests fuel (λ k. eof (k + 1)) rest in
    if ltb 255 (length line)
    then ([], false)
    else if length line == 0
    then ([], true)
    else (if is_empty args
        then (if eof 0 && is_done rest then ([], true) else (out, ended))
        else (if closes args || (eof 0 && is_done rest)
            then (command_text args, true)
            else (command_text args ++ out, ended)))
