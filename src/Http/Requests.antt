-- ===== src/Http/Requests.antt =====
-- vk_http11.c and vk_fetch.c: the whole head of a request, written by the client and read by the
-- server.
use mathlib.Core.List.{append_assoc}
use mnvkd.Base.{
  ℕ, ◌<◌, ◌≤◌, ℤ, Bool, true, false, not, ◌&&◌, ◌||◌, leb, ◌==◌, if◌then◌else◌, if_true, if_false,
  Bool-cases, inl, inr, some, List, [], ◌∷◌, ◌++◌, take, length, length-append, codes, Checked,
  fail, ok as checked, ◌>>=◌ as ◌>>=ᶜ◌, strcasecmp, enobufs, ◌≡◌, refl, sym, ap, ◌∙◌, arith,
}
use mnvkd.Rfc.{return, newline, c_string_all, is_string}
use mnvkd.Enum.{find_row, string_to}
use mnvkd.Fetch.{http11, string_to_http_method, string_to_http_version}
use mnvkd.Fetch.Request.{fits_buffer, request_line, headers_text, head_text}
use mnvkd.Http.Head.{
  ok, ◌>>=◌, Request, is_blank, strsep, start, with_version, with_uri, parse_request_line,
  is_http09, read_headers, read_head,
}
use mnvkd.Http.Kept.{
  Headers, cut, add_all, add_all_headers, add_all_flags, add_all_start, says_chunked, says_close,
  any_header,
}
use mnvkd.Http.Heads.{is_plain, is_plain-append, read_rfc_line_lem, all_lines, read_headers_lem}

-- A text without a NUL, a blank or the end of a line.
abbrev pub is_token : List ℕ → Bool
is_token [] = true
is_token (c ∷ s) =
    ((not (c == 0) && not (is_blank c)) && (not (c == newline) && not (c == return))) && is_token s

token_plain : (s : List ℕ) → is_token s ≡ true → is_plain s ≡ true
token_plain [] h = refl
token_plain (c ∷ s) h = ground (arith, token_plain s)

token_string : (s t : List ℕ) → is_token s ≡ true → is_string t ≡ true → is_string (s ++ t) ≡ true
token_string [] t h k = k
token_string (c ∷ s) t h k = ground (arith, token_string s t)

strsep_token : (s rest : List ℕ) → is_token s ≡ true → strsep (s ++ (b' ' ∷ rest)) ≡ (s, some rest)
unfolding strsep
strsep_token [] rest h = refl
strsep_token (c ∷ s) rest h =
    if_false (is_blank c) _ _ (ground arith)
    ∙ ap (λ r. (c ∷ r.0, r.1)) (strsep_token s rest (ground arith))

abbrev version_text : List ℕ
version_text = codes "HTTP/1.1"

version_lem : string_to_http_version (strsep version_text).0 ≡ http11
unfolding strsep string_to_http_version string_to find_row strcasecmp
version_lem = refl

-- The request line without its end.
abbrev line_text : List ℕ → List ℕ → List ℕ
line_text method url = method ++ (b' ' ∷ url ++ (b' ' ∷ version_text))

parse_request_line_lem :
    (method url : List ℕ)
    → is_token method ≡ true
    → is_token url ≡ true
    → parse_request_line (line_text method url)
      ≡ ok (start (string_to_http_method method) url http11)
parse_request_line_lem method url h k =
    let whole = c_string_all (line_text method url) (
      token_string method (b' ' ∷ url ++ (b' ' ∷ version_text)) h
        (token_string url (b' ' ∷ version_text) k refl)) in
    let more : (length (line_text method url) == 0) ≡ false =
      ground (arith, length-append {0} method (b' ' ∷ url ++ (b' ' ∷ version_text))) in
    if_false (length (line_text method url) == 0) _ _ more
    ∙ (ap (λ z. with_uri (string_to_http_method (strsep z).0) (strsep z).1) whole
        ∙ (ap (λ r. with_uri (string_to_http_method r.0) r.1)
              (strsep_token method (url ++ (b' ' ∷ version_text)) h)
            ∙ (ap (λ r. ok (with_version (string_to_http_method method) r.0 r.1))
                  (strsep_token url version_text k)
                ∙ ap (λ v. ok (start (string_to_http_method method) url v)) version_lem)))

abbrev tail_text : Headers → List ℕ → List ℕ
tail_text headers rest = headers_text headers ++ (return ∷ newline ∷ rest)

module _ (below : ℕ → ℤ) (fuel : ℕ) (method url : List ℕ) (headers : Headers) (rest : List ℕ) where
  read_head_parts :
      is_token method ≡ true
      → is_token url ≡ true
      → all_lines below headers ≡ true
      → length headers < fuel
      → length (line_text method url) ≤ 1021
      → read_head below fuel (line_text method url ++ (return ∷ newline ∷ tail_text headers rest))
        ≡ ok (add_all (start (string_to_http_method method) url http11) headers, rest)
  unfolding read_head
  read_head_parts h k all lt few =
      let plain : is_plain (line_text method url) ≡ true =
        is_plain-append method (b' ' ∷ url ++ (b' ' ∷ version_text)) (token_plain method h)
          (is_plain-append url (b' ' ∷ version_text) (token_plain url k) refl) in
      ap
        (λ s. s >>= λ (line, left). parse_request_line line >>= λ r.
          if is_http09 below r.version then ok (r, left) else read_headers below fuel r left)
        (read_rfc_line_lem (line_text method url) (tail_text headers rest) plain few)
      ∙ (ap
            (λ s. s >>= λ r.
              if is_http09 below r.version
              then ok (r, tail_text headers rest)
              else read_headers below fuel r (tail_text headers rest))
            (parse_request_line_lem method url h k)
          ∙ read_headers_lem below fuel (start (string_to_http_method method) url http11) headers
              rest all lt)

-- What a text that fits the buffer becomes.
fitted :
    (line more text : List ℕ)
    → (fits_buffer line >>=ᶜ λ l. checked (l ++ more)) ≡ checked text
    → (text ≡ line ++ more) × (length line < 1024)
fitted line more text made = elim (Bool-cases (leb 1024 (length line))) [
  | inl e ↦
      let failed =
        ap (λ z. z >>=ᶜ λ l. checked (l ++ more))
          (if_true (leb 1024 (length line)) (fail enobufs) (checked line) e) in
      absurd (cc (made, failed))
  | inr e ↦ (
    sym (
        ap text_of (
          sym (ap (λ z. z >>=ᶜ λ l. checked (l ++ more)) (if_false (leb 1024 (length line)) _ _ e))
          ∙ made)),
    ground arith,
  )
]
  where
    text_of : Checked (List ℕ) → List ℕ
    text_of (fail e) = []
    text_of (checked s) = s

line_lem :
    (method url : List ℕ)
    → method ++ (codes " " ++ (url ++ (codes " HTTP/1.1" ++ (return ∷ newline ∷ []))))
      ≡ line_text method url ++ (return ∷ newline ∷ [])
line_lem method url = sym (
    append_assoc method (b' ' ∷ url ++ (b' ' ∷ version_text)) (return ∷ newline ∷ [])
    ∙ ap (λ z. method ++ (b' ' ∷ z))
        (append_assoc url (b' ' ∷ version_text) (return ∷ newline ∷ [])))

head_parts :
    (method url : List ℕ) (headers : Headers) (rest text : List ℕ)
    → head_text method url headers ≡ checked text
    → (text ++ rest ≡ line_text method url ++ (return ∷ newline ∷ tail_text headers rest))
      × (length (line_text method url) ≤ 1021)
unfolding head_text request_line
head_parts method url headers rest text made =
    let ended = return ∷ newline ∷ [] in
    let (same, few) = fitted _ (headers_text headers ++ ended) text made in
    (
      ap (λ z. z ++ rest)
            (same ∙ ap (λ l. l ++ (headers_text headers ++ ended)) (line_lem method url))
          ∙ (append_assoc (line_text method url ++ ended) (headers_text headers ++ ended) rest
              ∙ (append_assoc (line_text method url) ended ((headers_text headers ++ ended) ++ rest)
                  ∙ ap (λ z. line_text method url ++ (return ∷ newline ∷ z))
                      (append_assoc (headers_text headers) ended rest))),
      omega
          (arith, few, ap length (line_lem method url), length-append (line_text method url) ended),
    )

or_false : (b : Bool) → (b || false) ≡ b
or_false true = refl
or_false false = refl

-- The server reads back the head of the request that the client writes, with what follows left in
-- the input: the method by its name, the address cut to its buffer, the version, the first 15
-- headers in their order, each cut to its buffers, and counted; the entity is chunked, and the
-- connection is to close, where a header of any place says so. It holds for a method and an address
-- without blanks, for headers that each go on one line, and with more fuel than headers.
pub read_head-head_text :
    (below : ℕ → ℤ) (fuel : ℕ) (method url : List ℕ) (headers : Headers) (rest text : List ℕ)
    → is_token method ≡ true
    → is_token url ≡ true
    → all_lines below headers ≡ true
    → length headers < fuel
    → head_text method url headers ≡ checked text
    → (r : Request) × (read_head below fuel (text ++ rest) ≡ ok (r, rest))
      × (r.method ≡ string_to_http_method method)
      × (r.uri ≡ take 1023 url)
      × (r.version ≡ http11)
      × (r.headers ≡ take 15 (cut headers))
      × (r.header_count ≡ length r.headers)
      × (r.chunked ≡ any_header says_chunked headers)
      × (r.close ≡ any_header says_close headers)
read_head-head_text below fuel method url headers rest text h k all lt made =
    let (whole, few) = head_parts method url headers rest text made in
    let first = start (string_to_http_method method) url http11 in
    let (kept, counted) =
      add_all_headers first headers record { counted = refl; few = omega arith } in
    let (chunked, close) = add_all_flags first headers in
    let (a, b, c) = add_all_start first headers in
    (
      add_all first headers,
      ap (read_head below fuel) whole
          ∙ read_head_parts below fuel method url headers rest h k all lt few,
      a,
      b,
      c,
      kept,
      counted.counted,
      chunked ∙ or_false (any_header says_chunked headers),
      close ∙ or_false (any_header says_close headers),
    )
