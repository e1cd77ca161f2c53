-- ===== src/Redis/Replies.antt =====
-- vk_redis.c: the replies of the responder, and what the client prints of them.
use mathlib.Core.List.{append_assoc, append-nil}
use mnvkd.Base.{
  ℕ, zero, suc, ◌+◌, ◌<◌, pos, Bool, true, false, not, ◌&&◌, leb, ◌==◌, if◌then◌else◌, if_false,
  Bool-cases, inl, inr, some, List, [], ◌∷◌, ◌++◌, length, length-take, take, drop, codes, ◌≡◌,
  refl, sym, ap, ◌∙◌, arith, strcasecmp,
}
use mnvkd.Rfc.{c_string}
use mnvkd.Stream.{split_line, read_line, read_bytes, overwrite, atoi}
use mnvkd.Stream.Laws.{read_line-newline, read_bytes-append}
use mnvkd.Redis.{Query}
use mnvkd.Redis.Request.{done, ◌>>=◌, fits_line, End, finished}
use mnvkd.Redis.Client.{crlf}
use mnvkd.Redis.Framing.{number_line, number_at, take_number_line}
use mnvkd.Redis.Response.{
  Stored, Fetched, Reply, wrote, flushed, tx_closed, shut_down, line_of, bulk_reply, answer,
  set_reply, get_reply, respond, is_last, after_loop, responses, printed_end, printed_bytes,
  print_bulk, print_line, print_reply, print_next, print_replies,
}

-- The part of a value that is sent.
abbrev pub sent_part : List ℕ → List ℕ
sent_part value =
    take (if leb 64 (length (c_string value)) then 63 else length (c_string value)) (c_string value)

length-sent_part :
    (value : List ℕ)
    → let n = if leb 64 (length (c_string value)) then 63 else length (c_string value) in
      (n < 64) × (length (sent_part value) ≡ n)
length-sent_part value = elim (Bool-cases (leb 64 (length (c_string value)))) [
  | inl e ↦ rw e (omega arith, length-take 63 (c_string value) (ground arith))
  | inr e ↦
      rw e (ground arith, length-take (length (c_string value)) (c_string value) (omega arith))
]

print_bulk_lem :
    (buf text rest : List ℕ)
    → length text < 64
    → (buf' : List ℕ) × (print_bulk buf (text ++ (crlf ++ rest)) (pos (length text))
        ≡ done (some (text ++ codes "\n", buf', rest)))
print_bulk_lem buf text rest lt = (
  overwrite crlf buf,
  ap (λ len. printed_bytes buf len (read_bytes len (text ++ (crlf ++ rest))))
        (if_false (leb 64 (length text)) 63 (length text) (ground arith))
      ∙ (ap (printed_bytes buf (length text)) (read_bytes-append text (crlf ++ rest))
          ∙ (if_false (not (length text == length text)) _ _ (ground arith)
              ∙ ap (λ r. fits_line 256 r >>= printed_end buf text)
                  (read_line-newline 255 (b'\r' ∷ []) rest refl (omega arith)))),
)

-- The client prints the value of a bulk string that the responder writes, up to its NUL and 63 bytes
-- of it at most, on a line of its own, and goes on behind it.
print_reply-bulk_reply :
    (buf value rest : List ℕ)
    → (buf' : List ℕ) × (print_reply buf (bulk_reply value ++ rest)
        ≡ done (some (sent_part value ++ codes "\n", buf', rest)))
unfolding print_reply bulk_reply
print_reply-bulk_reply buf value rest =
    let (lt, whole) = length-sent_part value in
    let text = sent_part value in
    let n : ℕ = if leb 64 (length (c_string value)) then 63 else length (c_string value) in
    let head = number_line b'$' n in
    let buf1 = overwrite (head ++ (0 ∷ [])) buf in
    let (buf', printed) = print_bulk_lem buf1 text rest (omega (arith, whole, lt)) in
    (
      buf',
      ap (λ z. fits_line 255 (read_line 255 z) >>= print_line buf)
            (append_assoc head (text ++ crlf) rest
              ∙ ap (λ z. head ++ z) (append_assoc text crlf rest))
          ∙ (ap (λ r. r >>= print_line buf)
                (take_number_line 255 255 b'$' n (text ++ (crlf ++ rest)) (omega arith)
                  (omega arith) lt refl)
              ∙ (if_false (length head == 0) _ _ (ground arith)
                  ∙ (ap (print_bulk buf1 (text ++ (crlf ++ rest))) (
                        ap (λ z. atoi (drop 1 z))
                          (append_assoc head (0 ∷ []) (drop (length (head ++ (0 ∷ []))) buf))
                        ∙ (number_at b'$' n (0 ∷ drop (length (head ++ (0 ∷ []))) buf) lt
                            ∙ ap pos (sym whole)))
                      ∙ printed))),
    )

-- The replies that are written.
abbrev pub written : List Reply → List (List ℕ)
written [] = []
written (wrote text ∷ replies) = text ∷ written replies
written (flushed ∷ replies) = written replies
written (tx_closed ∷ replies) = written replies
written (shut_down ∷ replies) = written replies

module _ {D : Type 0} (set : D → List ℕ → List ℕ → Stored D) (get : D → List ℕ → Fetched) where
  -- One reply for each query up to the first that closes, but none for a shutdown.
  abbrev pub answers : D → List Query → List (List ℕ)
  answers db [] = []
  answers db (q ∷ queries) =
      let (db1, reply) = answer set get db q in
      let more = answers db1 queries in
      if q.shutdown then [] else (if q.close then line_of (codes "+OK") ∷ [] else reply ∷ more)

  written_end : (networked : Bool) → written (after_loop set get networked) ≡ []
  written_end true = refl
  written_end false = refl

  respond-written :
      (networked shutdown close last : Bool) (db : D) (answered : D × List ℕ)
      (rest : D × List Reply) (more : List (List ℕ))
      → written rest.1 ≡ more
      → (last ≡ true → more ≡ [])
      → written (respond set get networked shutdown close last db answered rest).1 ≡ (
          if shutdown
          then []
          else (if close then line_of (codes "+OK") ∷ [] else answered.1 ∷ more))
  respond-written true true close last db answered rest more h e = refl
  respond-written false true close last db answered rest more h e = refl
  respond-written true false true last db answered rest more h e = refl
  respond-written false false true last db answered rest more h e = refl
  respond-written networked false false true db answered rest more h e =
      ap (λ z. answered.1 ∷ z) (written_end networked ∙ sym (e refl))
  respond-written networked false false false db answered rest more h e = ap (λ z. answered.1 ∷ z) h

  no_answers :
      (eof : Bool) (db : D) (queries : List Query)
      → (eof && is_last set get queries) ≡ true
      → answers db queries ≡ []
  no_answers eof db [] h = refl
  no_answers eof db (q ∷ queries) h = absurd_and eof h
    where
      absurd_and : {A : Type 0} (b : Bool) → (b && false) ≡ true → A
      absurd_and true e = absurd (cc e)
      absurd_and false e = absurd (cc e)

  -- The responder writes one reply for each query, in order, up to the first that closes, which gets
  -- one too unless it is a shutdown; each is what the database answers after the queries before it.
  -- So it is whenever end of file is seen, and for a connection as for a pipe.
  pub responses-answers :
      (networked : Bool) (eof : ℕ → Bool) (db : D) (queries : List Query)
      → written (responses set get networked eof db queries).1 ≡ answers db queries
  unfolding responses
  responses-answers networked eof db [] = written_end networked
  responses-answers networked eof db (q ∷ queries) =
      let answered = answer set get db q in
      respond-written networked q.shutdown q.close (eof 0 && is_last set get queries) db answered
        (responses set get networked (λ k. eof (k + 1)) answered.0 queries)
        (answers answered.0 queries)
        (responses-answers networked (λ k. eof (k + 1)) answered.0 queries)
        (no_answers (eof 0) answered.0 queries)

-- All replies.
abbrev pub concat_text : List (List ℕ) → List ℕ
concat_text [] = []
concat_text (text ∷ texts) = text ++ concat_text texts

abbrev pub arg_at : List (List ℕ) → ℕ → List ℕ
arg_at [] i = []
arg_at (arg ∷ args) zero = arg
arg_at (arg ∷ args) (suc i) = arg_at args i

-- The query that is made of arguments.
abbrev pub query_of : List (List ℕ) → Query
query_of args = record { argc = length args; close = false; shutdown = false; argv = arg_at args }

-- `OK` on a line of its own.
print_reply-ok :
    (buf rest : List ℕ)
    → (buf' : List ℕ) × (print_reply buf (line_of (codes "+OK") ++ rest)
        ≡ done (some (codes "OK" ++ codes "\n", buf', rest)))
unfolding print_reply read_line split_line
print_reply-ok buf rest = (overwrite (line_of (codes "+OK") ++ (0 ∷ [])) buf, refl)

print_replies_step :
    (fuel : ℕ) (buf input text buf' rest : List ℕ)
    → print_reply buf input ≡ done (some (text, buf', rest))
    → print_replies (suc fuel) buf input
      ≡ (text ++ (print_replies fuel buf' rest).0, (print_replies fuel buf' rest).1)
unfolding print_replies
print_replies_step fuel buf input text buf' rest h = ap (print_next (print_replies fuel)) h

print_replies_end : (fuel : ℕ) (buf : List ℕ) → print_replies (suc fuel) buf [] ≡ ([], finished)
unfolding print_replies print_reply read_line split_line
print_replies_end fuel buf = refl

module _ {D : Type 0} (set : D → List ℕ → List ℕ → Stored D) (get : D → List ℕ → Fetched) where
  -- The answers to a `SET` and a `GET`.
  set_get-answers :
      (key value found : List ℕ) (db db' : D)
      → set db (c_string key) (c_string value) ≡ Stored.stored db'
      → get db' (c_string key) ≡ Fetched.row found
      → answers set get db
          (query_of (codes "SET" ∷ key ∷ value ∷ []) ∷ query_of (codes "GET" ∷ key ∷ []) ∷ [])
        ≡ line_of (codes "+OK") ∷ bulk_reply found ∷ []
  unfolding answer strcasecmp
  set_get-answers key value found db db' h g =
      ap
        (λ s.
          (set_reply set get db s).1
          ∷ get_reply (get (set_reply set get db s).0 (c_string key))
          ∷ [])
        h
      ∙ ap (λ r. line_of (codes "+OK") ∷ get_reply r ∷ []) g

  -- The client prints `OK` and then the value that the database has found, up to its NUL and 63 bytes
  -- of it at most, where the responder has answered a `SET` and a `GET` of one key: whenever end of
  -- file is seen, where the database stores the one and finds the other, where every line of the
  -- replies has come in whole when it is read, and for fuel of at least 3.
  pub print_replies-responses :
      (key value found : List ℕ) (db db' : D)
      → set db (c_string key) (c_string value) ≡ Stored.stored db'
      → get db' (c_string key) ≡ Fetched.row found
      → (networked : Bool) (eof : ℕ → Bool) (fuel : ℕ) (buf : List ℕ)
      → print_replies (suc (suc (suc fuel))) buf (
          concat_text (
            written
              (responses set get networked eof db (
                query_of (codes "SET" ∷ key ∷ value ∷ [])
                ∷ query_of (codes "GET" ∷ key ∷ [])
                ∷ [])).1))
        ≡ (codes "OK\n" ++ (sent_part found ++ codes "\n"), finished)
  print_replies-responses key value found db db' h g networked eof fuel buf =
      let queries : List Query =
        query_of (codes "SET" ∷ key ∷ value ∷ []) ∷ query_of (codes "GET" ∷ key ∷ []) ∷ [] in
      let text = ap concat_text (
        responses-answers set get networked eof db queries
        ∙ set_get-answers key value found db db' h g) in
      let (buf1, first) = print_reply-ok buf (bulk_reply found ++ []) in
      let (buf2, second) = print_reply-bulk_reply buf1 found [] in
      let one =
        print_replies_step (suc (suc fuel)) buf (line_of (codes "+OK") ++ (bulk_reply found ++ []))
          (codes "OK" ++ codes "\n") buf1 (bulk_reply found ++ []) first in
      let two =
        print_replies_step (suc fuel) buf1 (bulk_reply found ++ []) (sent_part found ++ codes "\n")
          buf2 [] second
        ∙ ap (λ (r : List ℕ × End). ((sent_part found ++ codes "\n") ++ r.0, r.1))
            (print_replies_end fuel buf2) in
      ap (print_replies (suc (suc (suc fuel))) buf) text
      ∙ (one
          ∙ (ap (λ (r : List ℕ × End). (codes "OK\n" ++ r.0, r.1)) two
              ∙ ap (λ z. (codes "OK\n" ++ z, finished))
                  (append-nil (sent_part found ++ codes "\n"))))
