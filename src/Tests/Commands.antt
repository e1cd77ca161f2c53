-- ===== src/Tests/Commands.antt =====
-- A `SET` and a `GET` of one key, by hand and from the client's lines.
use mnvkd.Base.{
  ℕ, ◌<◌, Bool, true, false, List, [], ◌∷◌, ◌++◌, length, codes, Option, some, none, ◌≡◌, refl,
  arith, strcasecmp,
}
use mnvkd.Stream.{split_line, read_line}
use mnvkd.Redis.{Query, no_query}
use mnvkd.Redis.Request.{overran, finished, read_arg, requests}
use mnvkd.Redis.Client.{words_from, strtok_all, arguments_of, client_requests}
use mnvkd.Redis.Serving.{received, expected, commands_text, requests-commands}
use mnvkd.Redis.Pipeline.{lines_fit, line_commands, requests-client_requests}
use mnvkd.Redis.Overrun.{minus_line, read_arg_overruns}
use mnvkd.Redis.Response.{Stored, Fetched, responses, print_replies}
use mnvkd.Redis.Replies.{
  written, concat_text, query_of, answers, responses-answers, print_replies-responses,
}

-- A database of one value.
abbrev put_value : Option (List ℕ) → List ℕ → List ℕ → Stored (Option (List ℕ))
put_value db key value = Stored.stored (some value)

abbrev get_value : Option (List ℕ) → List ℕ → Fetched
get_value none key = Fetched.no_row
get_value (some value) key = Fetched.row value

abbrev never : ℕ → Bool
never k = false

abbrev no_args : ℕ → List ℕ
no_args i = []

abbrev lines : List ℕ
lines = codes "SET a b\n\nquit\nGET a\n"

two_commands :
    line_commands 30 lines
    ≡ (codes "SET" ∷ codes "a" ∷ codes "b" ∷ [])
      ∷ (codes "quit" ∷ [])
      ∷ (codes "GET" ∷ codes "a" ∷ [])
      ∷ []
unfolding line_commands read_line split_line arguments_of strtok_all words_from
two_commands = refl

lines_short : lines_fit 30 lines ≡ true
unfolding read_line split_line
lines_short = refl

two_few : length (line_commands 30 lines) < 5
two_few = rw two_commands (omega arith)

requests-client_requests_example :
    let (text, ended) = client_requests 30 never lines in
    let (events, end) = requests 5 never (no_args, [], text) in
    (received events ≡ expected (line_commands 30 lines)) × (end ≡ finished) × (ended ≡ true)
requests-client_requests_example =
    requests-client_requests 30 never lines 5 never no_args [] (omega arith) lines_short two_few

abbrev commands : List (List (List ℕ))
commands = (codes "SET" ∷ codes "a" ∷ codes "b c" ∷ []) ∷ (codes "GET" ∷ codes "a" ∷ []) ∷ []

requests-commands_example :
    let (events, end) = requests 3 never (no_args, [], commands_text commands) in
    (received events
      ≡ (codes "SET" ∷ codes "a" ∷ codes "b c" ∷ []) ∷ (codes "GET" ∷ codes "a" ∷ []) ∷ [] ∷ [])
    × (end ≡ finished)
unfolding strcasecmp
requests-commands_example = requests-commands 3 never no_args [] commands refl (omega arith)

print_replies-responses_example :
    print_replies 3 [] (
      concat_text (
        written
          (responses put_value get_value true never none (
            query_of (codes "SET" ∷ codes "a" ∷ codes "b" ∷ [])
            ∷ query_of (codes "GET" ∷ codes "a" ∷ [])
            ∷ [])).1))
    ≡ (codes "OK\nb\n", finished)
print_replies-responses_example =
    print_replies-responses put_value get_value (codes "a") (codes "b") (codes "b") none
      (some (codes "b")) refl refl true never 0 []

abbrev pings : List Query
pings = query_of (codes "PING" ∷ []) ∷ query_of (codes "GET" ∷ codes "a" ∷ []) ∷ []

responses-answers_example :
    written (responses put_value get_value false never none pings).1
    ≡ answers put_value get_value none pings
responses-answers_example = responses-answers put_value get_value false never none pings

abbrev more_bytes : List ℕ
more_bytes = codes "0123456789012345678901234567890123456789012345678901234567890123456789"

read_arg_overruns_example : read_arg 0 (no_args, [], minus_line 1 ++ more_bytes) ≡ overran 0 70
read_arg_overruns_example =
    read_arg_overruns 0 1 no_args [] more_bytes (omega arith) (omega arith) (omega arith)
      (omega arith)

-- The one reply to `QUIT` and to the end of the input.
quit_replies :
    answers put_value get_value none (record no_query { close = true } ∷ []) ≡ codes "+OK\r\n" ∷ []
quit_replies = refl
