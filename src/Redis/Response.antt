-- ===== src/Redis/Response.antt =====
-- `redis_response`: the replies to the queries that come from `redis_request`, and what
-- `redis_client_response` prints of replies. The database is SQLite's: what a statement gives is what
-- `set` and `get` give.
use mnvkd.Base.{
  ℕ, zero, suc, ◌+◌, ◌-◌, ℤ, pos, negsuc, Bool, true, false, not, ◌&&◌, ◌||◌, ltb, leb, ◌==◌,
  if◌then◌else◌, Option, some, none, List, [], ◌∷◌, ◌++◌, take, drop, length, codes, epipe,
}
use mnvkd.Rfc.{c_string}
use mnvkd.Stream.{read_bytes, read_line, overwrite, atoi, decimal, signed_decimal}
use mnvkd.Redis.{max_bulk, Query, is_word}
use mnvkd.Redis.Request.{
  Reading, done, raised, ◌>>=◌, fits_line, starts, End, finished, failed, overrun, overrun_line,
  no_fuel,
}
use mnvkd.Redis.Client.{crlf}

-- What becomes of a statement: it cannot be prepared, or its step has a result.
pub data Stored (D : Type 0) : Type 0 where
  unprepared : Stored D
  refused : D → Stored D
  stored : D → Stored D

pub data Fetched : Type 0 where
  unprepared : Fetched
  no_row : Fetched
  null_value : Fetched
  row : List ℕ → Fetched

-- What the responder does beside reading.
pub data Reply : Type 0 where
  wrote : List ℕ → Reply
  flushed : Reply
  tx_closed : Reply
  shut_down : Reply

abbrev pub line_of : List ℕ → List ℕ
line_of text = text ++ crlf

-- A value as a bulk string, of which 63 bytes at most are sent.
unfoldable pub bulk_reply : List ℕ → List ℕ
bulk_reply value =
    let text = c_string value in
    let len = if leb max_bulk (length text) then 63 else length text in
    (b'$' ∷ decimal len ++ crlf) ++ (take len text ++ crlf)

abbrev pub get_reply : Fetched → List ℕ
get_reply Fetched.unprepared = line_of (codes "-ERR sqlite")
get_reply Fetched.no_row = line_of (codes "$-1")
get_reply Fetched.null_value = line_of (codes "$-1")
get_reply (Fetched.row value) = bulk_reply value

module _ {D : Type 0} (set : D → List ℕ → List ℕ → Stored D) (get : D → List ℕ → Fetched) where
  abbrev pub set_reply : D → Stored D → D × List ℕ
  set_reply db Stored.unprepared = (db, line_of (codes "-ERR sqlite"))
  set_reply db (Stored.refused db') = (db', line_of (codes "-ERR sqlite"))
  set_reply db (Stored.stored db') = (db', line_of (codes "+OK"))

  -- The reply to a query that does not close.
  unfoldable pub answer : D → Query → D × List ℕ
  answer db q =
      if ltb 0 q.argc && is_word (q.argv 0) (codes "PING")
      then (db, line_of (codes "+PONG"))
      else (if leb 3 q.argc && is_word (q.argv 0) (codes "SET")
          then set_reply db (set db (c_string (q.argv 1)) (c_string (q.argv 2)))
          else (if leb 2 q.argc && is_word (q.argv 0) (codes "GET")
              then (db, get_reply (get db (c_string (q.argv 1))))
              else (db, line_of (codes "-ERR unknown command"))))

  -- `networked` says whether there is a service with a kernel.
  abbrev pub close_if : Bool → List Reply
  close_if networked = if networked then tx_closed ∷ [] else []

  abbrev pub after_loop : Bool → List Reply
  after_loop networked = flushed ∷ close_if networked

  abbrev pub shutdown_replies : Bool → List Reply
  shutdown_replies networked =
      (if networked then shut_down ∷ tx_closed ∷ [] else []) ++ after_loop networked

  abbrev pub close_replies : Bool → List Reply
  close_replies networked =
      wrote (line_of (codes "+OK")) ∷ flushed ∷ close_if networked ++ after_loop networked

  abbrev pub is_last : List Query → Bool
  is_last [] = true
  is_last (_ ∷ _) = false

  -- What a round and all after it come to, by the flags of the query and whether it is the last one.
  abbrev pub respond :
      Bool → (shutdown close last : Bool) → D → D × List ℕ → D × List Reply → D × List Reply
  respond networked shutdown close last db (db1, reply) (db2, replies) =
      if shutdown
      then (db, shutdown_replies networked)
      else (if close
          then (db, close_replies networked)
          else (if last
              then (db1, wrote reply ∷ flushed ∷ after_loop networked)
              else (db2, wrote reply ∷ flushed ∷ replies)))

  -- The loop over the queries until end of file. `eof k` says whether end of file has been seen when
  -- round `k` ends, for `vk_nodata`.
  unfoldable pub responses : Bool → (ℕ → Bool) → D → List Query → D × List Reply
  responses networked eof db [] = (db, after_loop networked)
  responses networked eof db (q ∷ queries) =
      let answered = answer db q in
      let rest = responses networked (λ k. eof (k + 1)) answered.0 queries in
      respond networked q.shutdown q.close (eof 0 && is_last queries) db answered rest

-- `line + from` for the rest of the line, without the `ends` characters at its ends.
abbrev pub part : ℕ → ℕ → List ℕ → List ℕ
part from ends line = take (length line - ends) (drop from line)

-- The text, and the input that is left.
abbrev pub Printed : Type 0
Printed = List ℕ × List ℕ × List ℕ

abbrev pub printed_end : List ℕ → List ℕ → List ℕ × List ℕ → Reading (Option Printed)
printed_end buf bytes (line, rest) =
    if length line == 0
    then raised epipe
    else done (some (bytes ++ codes "\n", overwrite line buf, rest))

abbrev pub printed_bytes : List ℕ → ℕ → List ℕ × List ℕ → Reading (Option Printed)
printed_bytes buf len (bytes, rest) =
    if not (length bytes == len)
    then raised epipe
    else (fits_line 256 (read_line 255 rest) >>= printed_end buf bytes)

abbrev pub print_bulk : List ℕ → List ℕ → ℤ → Reading (Option Printed)
print_bulk buf rest (negsuc k) = done (some (codes "(nil)\n", buf, rest))
print_bulk buf rest (pos n) =
    let len = if leb max_bulk n then 63 else n in printed_bytes buf len (read_bytes len rest)

-- One reply, by the character that its line starts with.
abbrev pub print_line : List ℕ → List ℕ × List ℕ → Reading (Option Printed)
print_line buf (line, rest) =
    let buf1 = overwrite (line ++ (0 ∷ [])) buf in
    if length line == 0
    then done none
    else (if starts b'+' line || (starts b'-' line || starts b':' line)
        then done (some (part 1 3 line ++ codes "\n", buf1, rest))
        else (if starts b'$' line
            then print_bulk buf1 rest (atoi (drop 1 buf1))
            else (if starts b'*' line
                then done (
                    some (
                      codes "(array) " ++ (signed_decimal (atoi (drop 1 buf1)) ++ codes "\n"),
                      buf1,
                      rest,
                    ))
                else done (some (part 0 2 line ++ codes "\n", buf1, rest)))))

-- A round of `redis_client_response`, or none at end of file.
unfoldable pub print_reply : List ℕ → List ℕ → Reading (Option Printed)
unfolding read_line read_bytes atoi signed_decimal
print_reply buf input = fits_line 255 (read_line 255 input) >>= print_line buf

abbrev pub print_next : (List ℕ → List ℕ → List ℕ × End) → Reading (Option Printed) → List ℕ × End
print_next next (done none) = ([], finished)
print_next next (done (some (text, buf, rest))) =
    let (more, end) = next buf rest in (text ++ more, end)
print_next next (raised e) = ([], failed e)
print_next next (Reading.overran i n) = ([], overrun i n)
print_next next (Reading.overran_line n) = ([], overrun_line n)

-- The loop over the replies, with fuel; a hang-up and a close follow where it finishes.
unfoldable pub print_replies : ℕ → List ℕ → List ℕ → List ℕ × End
print_replies zero buf input = ([], no_fuel)
print_replies (suc fuel) buf input = print_next (print_replies fuel) (print_reply buf input)
