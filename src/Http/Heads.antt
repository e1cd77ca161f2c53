-- ===== src/Http/Heads.antt =====
-- vk_http11.c and vk_fetch.c: the head of a request, written by the client and read by the server.
use mathlib.Core.List.{append_assoc}
use mnvkd.Base.{
  ltb, ℕ, zero, suc, ◌+◌, ◌<◌, ◌≤◌, ℤ, Bool, true, false, not, ◌&&◌, leb, ◌==◌, if_false, some,
  none, List, [], ◌∷◌, ◌++◌, length, length-append, ◌≡◌, refl, sym, ap, ◌∙◌, arith,
}
use mnvkd.Rfc.{
  return, newline, colon, space, rtrim, rtrim_end, trim_last, parse_line, parse_header, header_text,
  is_key, is_string, is_trimmed, parse_line_lem,
}
use mnvkd.Stream.{split_line, read_line}
use mnvkd.Stream.Laws.{is_line, is_line-append, read_line-newline}
use mnvkd.Fetch.Request.{headers_text}
use mnvkd.Http.Kept.{Headers, add_all}
use mnvkd.Http.Head.{
  ok, ◌>>=◌, Request, rtrim_line, read_rfc_line, header_of, read_header, add_header, after_header,
  read_headers,
}

-- Characters that end no line.
abbrev pub is_plain : List ℕ → Bool
is_plain [] = true
is_plain (c ∷ s) = (not (c == newline) && not (c == return)) && is_plain s

plain_line : (s : List ℕ) → is_plain s ≡ true → is_line s ≡ true
plain_line [] h = refl
plain_line (c ∷ s) h = ground (arith, plain_line s)

pub is_plain-append :
    (s t : List ℕ) → is_plain s ≡ true → is_plain t ≡ true → is_plain (s ++ t) ≡ true
is_plain-append [] t h k = k
is_plain-append (x ∷ s) t h k = ground (arith, is_plain-append s t)

trim_last_plain :
    (s : List ℕ) → is_plain s ≡ true → (trim_last newline s ≡ s) × (trim_last return s ≡ s)
unfolding trim_last
trim_last_plain [] h = (refl, refl)
trim_last_plain (c ∷ []) h = (ground arith, ground arith)
trim_last_plain (c ∷ d ∷ s) h =
    let (a, b) = trim_last_plain (d ∷ s) (ground arith) in (ap (λ z. c ∷ z) a, ap (λ z. c ∷ z) b)

rtrim_plain : (s : List ℕ) → is_plain s ≡ true → rtrim s ≡ s
unfolding rtrim
rtrim_plain s h = let (a, b) = trim_last_plain s h in ap (trim_last return) a ∙ b

-- A line and its end are read, and the end is trimmed.
pub read_rfc_line_lem :
    (line rest : List ℕ)
    → is_plain line ≡ true
    → length line ≤ 1021
    → read_rfc_line (line ++ (return ∷ newline ∷ rest)) ≡ ok (line, rest)
unfolding read_rfc_line
read_rfc_line_lem line rest h few =
    let ended : List ℕ = line ++ (return ∷ []) in
    let plain : is_line ended ≡ true = is_line-append line (return ∷ []) (plain_line line h) refl in
    let short : length ended < 1023 = omega (arith, length-append {0} line (return ∷ [])) in
    let text : line ++ (return ∷ newline ∷ rest) ≡ ended ++ (newline ∷ rest) =
      sym (append_assoc line (return ∷ []) (newline ∷ rest)) in
    let some_line : (length (ended ++ (newline ∷ [])) == 0) ≡ false =
      ground (arith, length-append {0} ended (newline ∷ [])) in
    let fits : ltb 1024 (length (ended ++ (newline ∷ []))) ≡ false =
      ground (arith, short, length-append {0} ended (newline ∷ [])) in
    ap (λ z. rtrim_line (read_line 1023 z)) text
    ∙ (ap rtrim_line (read_line-newline 1023 ended rest plain short)
        ∙ (if_false (ltb 1024 (length (ended ++ (newline ∷ [])))) _ _ fits
            ∙ (if_false (length (ended ++ (newline ∷ [])) == 0) _ _ some_line
                ∙ ap (λ z. ok (z, rest))
                    (ap rtrim (append_assoc line (return ∷ []) (newline ∷ [])) ∙ rtrim_end line))))

-- A header that goes on one line.
abbrev pub is_header : List ℕ → List ℕ → Bool
is_header key val =
    (is_key key && (is_string val && is_trimmed val))
    && ((is_plain key && is_plain val) && leb (length key + length val) 1019)

header_plain :
    (key val : List ℕ)
    → is_plain key ≡ true
    → is_plain val ≡ true
    → is_plain (key ++ (colon ∷ space ∷ val)) ≡ true
header_plain key val h k = is_plain-append key (colon ∷ space ∷ val) h k

module _ (below : ℕ → ℤ) where
  read_header_lem :
      (key val rest : List ℕ)
      → is_header key val ≡ true
      → read_header below (header_text key val ++ rest) ≡ ok (some (key, val), rest)
  unfolding read_header header_text parse_header
  read_header_lem key val rest h =
      let line : List ℕ = key ++ (colon ∷ space ∷ val) in
      let plain : is_plain line ≡ true = header_plain key val (ground arith) (ground arith) in
      let few : length line ≤ 1021 = ground (arith, length-append {0} key (colon ∷ space ∷ val)) in
      let text : header_text key val ++ rest ≡ line ++ (return ∷ newline ∷ rest) =
        append_assoc line (return ∷ newline ∷ []) rest in
      let parsed =
        ap (parse_line below) (rtrim_plain line plain)
        ∙ parse_line_lem below key val (ground arith) (ground arith) (ground arith) in
      ap (λ z. read_rfc_line z >>= λ (l, r). ok (header_of (parse_line below (rtrim l)), r)) text
      ∙ (ap (λ s. s >>= λ (l, r). ok (header_of (parse_line below (rtrim l)), r))
            (read_rfc_line_lem line rest plain few)
          ∙ ap (λ p. ok (header_of p, rest)) parsed)

  -- Headers that go on one line each.
  abbrev pub all_lines : Headers → Bool
  all_lines [] = true
  all_lines ((key, val) ∷ headers) = is_header key val && all_lines headers

  pub read_header_end :
      (rest : List ℕ) → read_header below (return ∷ newline ∷ rest) ≡ ok (none, rest)
  unfolding read_header read_rfc_line read_line split_line rtrim trim_last parse_header
  read_header_end rest = refl

  pub read_headers_lem :
      (fuel : ℕ) (r : Request) (headers : Headers) (rest : List ℕ)
      → all_lines headers ≡ true
      → length headers < fuel
      → read_headers below fuel r (headers_text headers ++ (return ∷ newline ∷ rest))
        ≡ ok (add_all r headers, rest)
  unfolding read_headers headers_text
  read_headers_lem zero r headers rest h lt = absurd (omega arith)
  read_headers_lem (suc fuel) r [] rest h lt =
      ap (λ s. s >>= λ header. after_header below (read_headers below fuel) r header)
        (read_header_end rest)
  read_headers_lem (suc fuel) r ((key, val) ∷ headers) rest h lt =
      let left = headers_text headers ++ (return ∷ newline ∷ rest) in
      ap (λ s. s >>= λ header. after_header below (read_headers below fuel) r header)
        (ap (read_header below)
            (append_assoc (header_text key val) (headers_text headers) (return ∷ newline ∷ rest))
          ∙ read_header_lem key val left (ground arith))
      ∙ read_headers_lem fuel (add_header r key val) headers rest (ground arith) (omega arith)
