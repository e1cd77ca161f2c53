-- ===== src/Redis/Pipeline.antt =====
-- vk_redis.c: all the commands of a connection, from the client to the responder.
use mnvkd.Base.{
  Option, some, none, drop, leb, ltb, if_false, ℕ, zero, suc, ◌+◌, ◌<◌, ◌≤◌, Bool, true, false,
  ◌&&◌, ◌||◌, ◌==◌, if◌then◌else◌, Bool-cases, inl, inr, List, [], ◌∷◌, ◌++◌, length,
  length-take_le, take, ◌≡◌, refl, sym, ap, subst, ◌∙◌, arith,
}
use mathlib.Core.List.{append-nil}
use mnvkd.Rfc.{c_string}
use mnvkd.Stream.{newline, with_first, split_line, or_bytes, read_line}
use mnvkd.Redis.Request.{finished, requests}
use mnvkd.Redis.Client.{
  command_text, closes, strtok_all, map_take, is_empty, is_done, arguments_of, client_requests,
}
use mnvkd.Redis.Serving.{
  received, expected, is_command, all_commands, commands_text, requests-commands,
}
use mnvkd.Redis.Framing.{all_short}

-- A line without words is no command.
abbrev pub push_command : List (List ℕ) → List (List (List ℕ)) → List (List (List ℕ))
push_command [] commands = commands
push_command (arg ∷ args) commands = (arg ∷ args) ∷ commands

-- The commands of the lines of a text.
unfoldable pub line_commands : ℕ → List ℕ → List (List (List ℕ))
line_commands zero input = []
line_commands (suc fuel) input =
    let (line, rest) = read_line 255 input in
    let more = line_commands fuel rest in
    if length line == 0 then [] else push_command (arguments_of line) more

-- Lines that fit the client's buffer.
abbrev pub lines_fit : ℕ → List ℕ → Bool
lines_fit zero input = true
lines_fit (suc fuel) input =
    let (line, rest) = read_line 255 input in leb (length line) 255 && lines_fit fuel rest

-- The commands that a client has written, of the lines of its text.
Written : List (List (List ℕ)) → List ℕ → Type 0
Written lines out =
    (commands : List (List (List ℕ))) × (out ≡ commands_text commands)
    × (all_commands commands ≡ true)
    × (expected commands ≡ expected lines)
    × (length commands ≤ length lines)

line_commands_end : (fuel : ℕ) → line_commands fuel [] ≡ []
unfolding line_commands read_line split_line
line_commands_end zero = refl
line_commands_end (suc fuel) = refl

all_short-map_take : (args : List (List ℕ)) → all_short (map_take 63 args) ≡ true
all_short-map_take [] = refl
all_short-map_take (arg ∷ args) = ground (arith, all_short-map_take args, length-take_le 63 arg)

length-map_take : (n : ℕ) (args : List (List ℕ)) → length (map_take n args) ≡ length args
length-map_take n [] = refl
length-map_take n (arg ∷ args) = ap suc (length-map_take n args)

is_empty_lem : (args : List (List ℕ)) → is_empty args ≡ false → 0 < length args
is_empty_lem [] h = cc h
is_empty_lem (arg ∷ args) h = omega arith

is_command-map_take :
    (words : List (List ℕ))
    → is_empty (map_take 63 (take 8 words)) ≡ false
    → is_command (map_take 63 (take 8 words)) ≡ true
is_command-map_take words h =
    let short = all_short-map_take (take 8 words) in
    let few = length-map_take 63 (take 8 words) in
    let eight = length-take_le 8 words in
    let more = is_empty_lem (map_take 63 (take 8 words)) h in
    is_command_lem (map_take 63 (take 8 words)) short more (omega (arith, few, eight))
  where
    is_command_lem :
        (args : List (List ℕ))
        → all_short args ≡ true
        → 0 < length args
        → length args ≤ 8
        → is_command args ≡ true
    is_command_lem args a b c = ground arith

is_command-arguments_of :
    (line : List ℕ) → is_empty (arguments_of line) ≡ false → is_command (arguments_of line) ≡ true
unfolding arguments_of
is_command-arguments_of line h = is_command-map_take (strtok_all (c_string line)) h

-- What a round of the client's loop writes, `blank` where it has read no line.
abbrev client_round : Bool → List (List ℕ) → Bool → List ℕ × Bool → List ℕ × Bool
client_round blank args at_end (out, ended) =
    if blank
    then ([], true)
    else (if is_empty args
        then (if at_end then ([], true) else (out, ended))
        else (if closes args || at_end
            then (command_text args, true)
            else (command_text args ++ out, ended)))

Written-none : Written [] []
unfolding Written commands_text
Written-none = ([], refl, refl, refl, omega arith)

round-Written :
    (blank : Bool) (args : List (List ℕ)) (at_end : Bool) (run : List ℕ × Bool)
    (lines : List (List (List ℕ)))
    → (is_empty args ≡ false → is_command args ≡ true)
    → (at_end ≡ true → lines ≡ [])
    → Written lines run.0
    → Written (if blank then [] else push_command args lines) (client_round blank args at_end run).0
unfolding Written commands_text
round-Written true args at_end run lines valid last written = Written-none
round-Written false [] true run lines valid last written =
    subst (λ l. Written l []) (sym (last refl)) Written-none
round-Written false [] false run lines valid last written = written
round-Written false (arg ∷ args) at_end (out, ended) lines valid last
      (commands, text, all, same, few) =
    elim (Bool-cases (closes (arg ∷ args))) [
      | inl e ↦ rw e (
        (arg ∷ args) ∷ [],
        sym (append-nil (command_text (arg ∷ args))),
        ground (arith, valid refl),
        rw e refl,
        omega arith,
      )
      | inr e ↦ elim (Bool-cases at_end) [
        | inl f ↦
            rw (e, f)
              (
                (arg ∷ args) ∷ [],
                sym (append-nil (command_text (arg ∷ args))),
                ground (arith, valid refl),
                rw (e, last f) refl,
                omega arith,
              )
        | inr f ↦
            rw (e, f)
              (
                (arg ∷ args) ∷ commands,
                ap (λ z. command_text (arg ∷ args) ++ z) text,
                ground (arith, valid refl),
                rw e (ap (λ z. (arg ∷ args) ∷ z) same),
                omega arith,
              )
      ]
    ]

client_requests-Written :
    (fuel : ℕ) (eof : ℕ → Bool) (input : List ℕ)
    → lines_fit fuel input ≡ true
    → Written (line_commands fuel input) (client_requests fuel eof input).0
unfolding client_requests line_commands
client_requests-Written zero eof input fit = Written-none
client_requests-Written (suc fuel) eof input fit =
    let (line, rest) = read_line 255 input in
    subst (λ (r : List ℕ × Bool). Written (line_commands (suc fuel) input) r.0)
      (sym (if_false (ltb 255 (length line)) _ _ (ground (arith, fit))))
      (round-Written (length line == 0) (arguments_of line) (eof 0 && is_done rest)
        (client_requests fuel (λ k. eof (k + 1)) rest) (line_commands fuel rest)
        (is_command-arguments_of line) (nothing_left rest)
        (client_requests-Written fuel (λ k. eof (k + 1)) rest (ground (arith, fit))))
  where
    nothing_left : (rest : List ℕ) → (eof 0 && is_done rest) ≡ true → line_commands fuel rest ≡ []
    nothing_left [] h = line_commands_end fuel
    nothing_left (c ∷ rest) h = ground arith

abbrev Whole : List ℕ → Option (List ℕ × List ℕ) → Type 0
Whole input none = Unit {0}
Whole input (some (line, rest)) = length line + length rest ≡ length input

with_first-Whole :
    (x : ℕ) (input : List ℕ) (o : Option (List ℕ × List ℕ))
    → Whole input o
    → Whole (x ∷ input) (with_first x o)
with_first-Whole x input none w = tt
with_first-Whole x input (some (line, rest)) w = omega (arith, w)

if-Whole :
    (b : Bool) (x : ℕ) (input : List ℕ) (o : Option (List ℕ × List ℕ))
    → Whole input o
    → Whole (x ∷ input) (if b then some (x ∷ [], input) else with_first x o)
if-Whole true x input o w = omega arith
if-Whole false x input o w = with_first-Whole x input o w

split_line-Whole : (input : List ℕ) → Whole input (split_line input)
unfolding split_line
split_line-Whole [] = tt
split_line-Whole (x ∷ input) =
    if-Whole (x == newline) x input (split_line input) (split_line-Whole input)

length-parts : (n : ℕ) (xs : List ℕ) → length (take n xs) + length (drop n xs) ≡ length xs
length-parts zero xs = omega arith
length-parts (suc n) [] = refl
length-parts (suc n) (x ∷ xs) = omega (arith, length-parts n xs)

length-or_bytes :
    (n : ℕ) (input : List ℕ) (o : Option (List ℕ × List ℕ))
    → Whole input o
    → let (line, rest) = or_bytes n input o in length line + length rest ≡ length input
length-or_bytes n input none w = length-parts n input
length-or_bytes n input (some r) w = w

length-read_line :
    (n : ℕ) (input : List ℕ)
    → let (line, rest) = read_line n input in length line + length rest ≡ length input
unfolding read_line split_line
length-read_line n input = length-or_bytes n input (split_line input) (split_line-Whole input)

round_ended :
    (blank : Bool) (args : List (List ℕ)) (at_end : Bool) (run : List ℕ × Bool)
    → (blank ≡ false → run.1 ≡ true)
    → (client_round blank args at_end run).1 ≡ true
round_ended true args at_end run h = refl
round_ended false [] true run h = refl
round_ended false [] false run h = h refl
round_ended false (arg ∷ args) at_end run h = elim (Bool-cases (closes (arg ∷ args) || at_end)) [
  | inl e ↦ rw e refl
  | inr e ↦ rw e (h refl)
]

client_requests_ended :
    (fuel : ℕ) (eof : ℕ → Bool) (input : List ℕ)
    → length input < fuel
    → lines_fit fuel input ≡ true
    → (client_requests fuel eof input).1 ≡ true
unfolding client_requests
client_requests_ended zero eof input lt fit = absurd (omega arith)
client_requests_ended (suc fuel) eof input lt fit =
    let (line, rest) = read_line 255 input in
    ap (λ (r : List ℕ × Bool). r.1) (if_false (ltb 255 (length line)) _ _ (ground (arith, fit)))
    ∙ round_ended (length line == 0) (arguments_of line) (eof 0 && is_done rest)
        (client_requests fuel (λ k. eof (k + 1)) rest)
        λ some_line.
          client_requests_ended fuel (λ k. eof (k + 1)) rest
            (shorter (length line) (length rest) some_line (length-read_line 255 input))
            (ground (arith, fit))
  where
    shorter : (a b : ℕ) → (a == 0) ≡ false → a + b ≡ length input → b < fuel
    shorter a b h e = ground arith

-- What the client writes for the lines of a text is read by the server as their commands: the
-- responder is sent the words of each line that has some, 8 of them at most and 63 bytes of each, up
-- to the first `SHUTDOWN` or `QUIT`, and without one an empty command at the end. Both loops end. So
-- it is whenever either side sees end of file, for lines of at most 255 bytes, where each side finds
-- every line come in whole when it reads it, and for more fuel than the text has characters and than it has
-- commands.
pub requests-client_requests :
    (fuel : ℕ) (eof : ℕ → Bool) (input : List ℕ) (fuel' : ℕ) (eof' : ℕ → Bool) (argv : ℕ → List ℕ)
    (buf : List ℕ)
    → length input < fuel
    → lines_fit fuel input ≡ true
    → length (line_commands fuel input) < fuel'
    → let (text, ended) = client_requests fuel eof input in
      let (events, end) = requests fuel' eof' (argv, buf, text) in
      (received events ≡ expected (line_commands fuel input)) × (end ≡ finished) × (ended ≡ true)
unfolding Written
requests-client_requests fuel eof input fuel' eof' argv buf lt fit lt' =
    let (commands, text, all, same, few) = client_requests-Written fuel eof input fit in
    let (got, end) = requests-commands fuel' eof' argv buf commands all (omega arith) in
    (
      ap (λ z. received (requests fuel' eof' (argv, buf, z)).0) text ∙ (got ∙ same),
      ap (λ z. (requests fuel' eof' (argv, buf, z)).1) text ∙ end,
      client_requests_ended fuel eof input lt fit,
    )
