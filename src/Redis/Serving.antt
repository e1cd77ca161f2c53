-- ===== src/Redis/Serving.antt =====
-- vk_redis.c: what the responder is sent of the commands of a connection.
use mnvkd.Base.{
  ℕ, zero, suc, ◌+◌, ◌<◌, ◌≤◌, Bool, true, false, ◌&&◌, ltb, leb, if◌then◌else◌, Bool-cases, inl,
  inr, some, none, List, [], ◌∷◌, ◌++◌, length, codes, ◌≡◌, refl, ap, ap₂, ◌∙◌, arith,
}
use mnvkd.Stream.{split_line, read_line}
use mnvkd.Redis.{Query, is_word}
use mnvkd.Redis.Request.{
  done, as_query, read_query, Event, sent, flushed, tx_closed, hung_up, End, finished, Args, is_nil,
  pass_on, requests,
}
use mnvkd.Redis.Client.{command_text, closes}
use mnvkd.Redis.Framing.{arguments, arguments_from, all_short, read_query_lem}

-- The arguments of the queries that the responder is sent.
abbrev pub received : List Event → List (List (List ℕ))
received [] = []
received (sent q ∷ events) = arguments q ∷ received events
received (flushed ∷ events) = received events
received (tx_closed ∷ events) = received events
received (hung_up ∷ events) = received events

-- The commands up to the first that closes, or all and an empty one at their end.
abbrev pub expected : List (List (List ℕ)) → List (List (List ℕ))
expected [] = [] ∷ []
expected (args ∷ commands) =
    let more = expected commands in args ∷ (if closes args then [] else more)

-- From 1 to 8 arguments that fit their buffers
abbrev pub is_command : List (List ℕ) → Bool
is_command args = all_short args && (ltb 0 (length args) && leb (length args) 8)

abbrev pub all_commands : List (List (List ℕ)) → Bool
all_commands [] = true
all_commands (args ∷ commands) = is_command args && all_commands commands

unfoldable pub commands_text : List (List (List ℕ)) → List ℕ
commands_text [] = []
commands_text (args ∷ commands) = command_text args ++ commands_text commands

-- The flag that a query gets.
close_lem :
    (argv : ℕ → List ℕ) (buf rest : List ℕ) (args : List (List ℕ))
    → 0 < length args
    → arguments_from argv 0 (length args) ≡ args
    → ((as_query (length args) (argv, buf, rest)).0).close ≡ closes args
close_lem argv buf rest [] h e = absurd (omega arith)
close_lem argv buf rest (arg ∷ args) h e =
    let same : argv 0 ≡ arg = cc e in
    ap (λ a. if is_word a (codes "SHUTDOWN") then true else is_word a (codes "QUIT")) same

is_nil-append : (args : List (List ℕ)) (rest : List ℕ) → is_nil (command_text args ++ rest) ≡ false
unfolding command_text
is_nil-append args rest = refl

no_commands :
    (commands : List (List (List ℕ))) → is_nil (commands_text commands) ≡ true → commands ≡ []
unfolding commands_text
no_commands [] h = refl
no_commands (args ∷ commands) h = cc (h, is_nil-append args (commands_text commands))

-- What comes of a round that reads a query.
pass_on_lem :
    (next : Args → List Event × End) (eof : Bool) (q : Query) (buf rest : List ℕ)
    (commands : List (List (List ℕ)))
    → (is_nil rest ≡ true → commands ≡ [])
    → received ((next (q.argv, buf, rest)).0) ≡ expected commands
    → (next (q.argv, buf, rest)).1 ≡ finished
    → let (events, end) = pass_on next eof (done (some (q, buf, rest))) in
      (received events ≡ arguments q ∷ (if q.close then [] else expected commands))
      × (end ≡ finished)
pass_on_lem next eof q buf rest commands empty more ends = elim (Bool-cases q.close) [
  | inl e ↦ rw e (refl, refl)
  | inr e ↦ elim (Bool-cases (eof && is_nil rest)) [
    | inl f ↦ rw (e, f) (rw (empty (ground arith)) refl, refl)
    | inr f ↦ rw (e, f) (ap (λ z. arguments q ∷ z) more, ends)
  ]
]

read_query_end : (argv : ℕ → List ℕ) (buf : List ℕ) → read_query (argv, buf, []) ≡ done none
unfolding read_query read_line split_line
read_query_end argv buf = refl

-- The responder is sent the commands of a connection, in order, up to the first that closes, and
-- without one an empty command at the end, whenever end of file is seen: for commands of 1 to 8
-- arguments of at most 63 bytes, whatever the bytes, where every line has come in whole when it is
-- read, and for more fuel than commands.
pub requests-commands :
    (fuel : ℕ) (eof : ℕ → Bool) (argv : ℕ → List ℕ) (buf : List ℕ) (commands : List (List (List ℕ)))
    → all_commands commands ≡ true
    → length commands < fuel
    → let (events, end) = requests fuel eof (argv, buf, commands_text commands) in
      (received events ≡ expected commands) × (end ≡ finished)
unfolding requests commands_text
requests-commands zero eof argv buf commands h lt = absurd (omega arith)
requests-commands (suc fuel) eof argv buf [] h lt =
    let next = λ (args' : Args). requests fuel (λ k. eof (k + 1)) args' in
    (
      ap (λ r. received (pass_on next (eof 0) r).0) (read_query_end argv buf),
      ap (λ r. (pass_on next (eof 0) r).1) (read_query_end argv buf),
    )
requests-commands (suc fuel) eof argv buf (args ∷ commands) h lt =
    let next = λ (args' : Args). requests fuel (λ k. eof (k + 1)) args' in
    let few : length args ≤ 8 = ground arith in
    let (argv', buf', read, same) =
      read_query_lem argv buf args (commands_text commands) (ground arith) (ground arith) few in
    let (more, ends) =
      requests-commands fuel (λ k. eof (k + 1)) argv' buf' commands (ground arith) (omega arith) in
    let q = (as_query (length args) (argv', buf', commands_text commands)).0 in
    let (passed, ended) =
      pass_on_lem next (eof 0) q buf' (commands_text commands) commands (no_commands commands) more
        ends in
    (
      ap (λ r. received (pass_on next (eof 0) r).0) read
          ∙ (passed
              ∙ ap₂ (λ a b. a ∷ (if b then [] else expected commands)) same
                  (close_lem argv' buf' (commands_text commands) args (ground arith) same)),
      ap (λ r. (pass_on next (eof 0) r).1) read ∙ ended,
    )
