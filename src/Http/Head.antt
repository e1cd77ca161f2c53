-- ===== src/Http/Head.antt =====
-- `http11_request`, up to the entity: the request line and the headers.
use Prim.Native.Nat.{Ordering}
use mnvkd.Base.{
  ltb, ℕ, zero, suc, ◌+◌, ℤ, Bool, true, false, ◌||◌, leb, ◌==◌, if◌then◌else◌, Option, some, none,
  List, [], ◌∷◌, ◌++◌, take, length, codes, strcasecmp, epipe, einval,
}
use mnvkd.Fetch.{
  HttpMethod, HttpVersion, HttpHeader, http09, http10, http11, http20, no_version, connection,
  content_length, transfer_encoding, string_to_http_method, string_to_http_version,
  string_to_http_header,
}
use mnvkd.Rfc.{rtrim, c_string, Header, parse_header}
use mnvkd.Rfc.Hex.{Buf, dec_size}
use mnvkd.Stream.{read_line}

-- How a step goes: on, with an error that is raised, with a line of `n` bytes copied to a
-- buffer that has fewer, or cut off without fuel.
pub data Step {ℓ} (A : Type ℓ) : Type ℓ where
  ok : A → Step A
  raised : ℕ → Step A
  overran : ℕ → Step A
  no_fuel : Step A

infixl 5 ◌>>=◌
abbrev pub ◌>>=◌ {ℓ κ} : {A : Type ℓ} {B : Type κ} → Step A → (A → Step B) → Step B
ok a >>= f = f a
raised e >>= f = raised e
overran n >>= f = overran n
no_fuel >>= f = no_fuel

-- `struct request`; the headers are those that are counted.
pub record Request : Type 0 where
  pub method : HttpMethod
  pub uri : List ℕ
  pub version : HttpVersion
  pub headers : List (List ℕ × List ℕ)
  pub header_count : ℕ
  pub content_length : ℕ
  pub chunked : Bool
  pub close : Bool

abbrev pub is_blank : ℕ → Bool
is_blank c = c == 32 || c == 9

-- `strsep(&tok, " \t")`: the token, and what `tok` then points to.
unfoldable pub strsep : List ℕ → List ℕ × Option (List ℕ)
strsep [] = ([], none)
strsep (c ∷ s) =
    let (token, tok) = strsep s in if is_blank c then ([], some s) else (c ∷ token, tok)

-- `copy_into` a buffer of `size` bytes
abbrev pub copy_into : ℕ → List ℕ → List ℕ
copy_into size text = take size text

-- `vk_readrfcline` into a buffer of 1024 bytes: a line without its end.
abbrev pub rtrim_line : List ℕ × List ℕ → Step (List ℕ × List ℕ)
rtrim_line (line, rest) =
    if ltb 1024 (length line)
    then overran (length line)
    else if length line == 0
    then raised epipe
    else ok (rtrim line, rest)

unfoldable pub read_rfc_line : List ℕ → Step (List ℕ × List ℕ)
unfolding read_line
read_rfc_line input = rtrim_line (read_line 1023 input)

abbrev pub closes_by_default : HttpVersion → Bool
closes_by_default http09 = true
closes_by_default http10 = true
closes_by_default http11 = false
closes_by_default http20 = false
closes_by_default no_version = true

abbrev pub start : HttpMethod → List ℕ → HttpVersion → Request
start method uri version = record {
  method = method;
  uri = copy_into 1023 uri;
  version = version;
  headers = [];
  header_count = 0;
  content_length = 0;
  chunked = false;
  close = closes_by_default version;
}

abbrev pub with_version : HttpMethod → List ℕ → Option (List ℕ) → Request
with_version method uri none = start method uri http09
with_version method uri (some tok) = start method uri (string_to_http_version (strsep tok).0)

abbrev pub with_uri : HttpMethod → Option (List ℕ) → Step Request
with_uri m none = raised einval
with_uri m (some tok) = let (uri, rest) = strsep tok in ok (with_version m uri rest)

-- The request line, without its end.
abbrev pub parse_request_line : List ℕ → Step Request
parse_request_line line =
    let (method, tok) = strsep (c_string line) in
    if length line == 0 then raised einval else with_uri (string_to_http_method method) tok

abbrev pub is_same : List ℕ → List ℕ → Bool
is_same text word = elim (strcasecmp text word) [ Ordering.eq ↦ true | _ ↦ false ]

-- A string as the buffer that it stands in.
abbrev pub as_buf : List ℕ → Buf
as_buf [] k = 0
as_buf (c ∷ s) zero = c
as_buf (c ∷ s) (suc k) = as_buf s k

-- What a header says of the request.
abbrev pub heed : Request → HttpHeader → List ℕ → Request
heed r transfer_encoding val = record r {
  chunked = if is_same val (codes "chunked") then true else r.chunked;
}
heed r content_length val = record r { content_length = dec_size (as_buf val) }
heed r connection val = record r { close = if is_same val (codes "close") then true else r.close }
heed r _ val = r

-- The header is kept, unless there are 15 already.
abbrev pub keep : Request → List ℕ → List ℕ → Request
keep r key val =
    let more = leb 15 r.header_count in
    record r {
      headers =
          if more then r.headers else r.headers ++ ((copy_into 31 key, copy_into 95 val) ∷ []);
      header_count = if more then r.header_count else r.header_count + 1;
    }

unfoldable pub add_header : Request → List ℕ → List ℕ → Request
unfolding string_to_http_header
add_header r key val = keep (heed r (string_to_http_header key) val) key val

-- The header that a line has, or none where `parse_header` gives 0: for the empty line, and for a
-- line without a colon or a blank.
abbrev pub header_of : Header → Option (List ℕ × List ℕ)
header_of h = pair h.rc h.key h.val
  where
    pair : ℕ → Option (List ℕ) → Option (List ℕ) → Option (List ℕ × List ℕ)
    pair zero key val = none
    pair (suc rc) (some key) (some val) = some (key, val)
    pair (suc rc) (some key) none = none
    pair (suc rc) none val = none

-- What stands in memory before the size that `parse_header` trims by.
module _ (below : ℕ → ℤ) where
  unfoldable pub read_header : List ℕ → Step (Option (List ℕ × List ℕ) × List ℕ)
  unfolding parse_header
  read_header input =
      read_rfc_line input >>= λ (line, rest). ok (header_of (parse_header below line), rest)

  abbrev pub after_header :
      (Request → List ℕ → Step (Request × List ℕ))
      → Request
      → Option (List ℕ × List ℕ) × List ℕ
      → Step (Request × List ℕ)
  after_header next r (none, rest) = ok (r, rest)
  after_header next r (some (key, val), rest) = next (add_header r key val) rest

  -- The loop over the headers, with fuel.
  unfoldable pub read_headers : ℕ → Request → List ℕ → Step (Request × List ℕ)
  unfolding read_header
  read_headers zero r input = no_fuel
  read_headers (suc fuel) r input =
      read_header input >>= λ header. after_header (read_headers fuel) r header

  abbrev pub is_http09 : HttpVersion → Bool
  is_http09 http09 = true
  is_http09 http10 = false
  is_http09 http11 = false
  is_http09 http20 = false
  is_http09 no_version = false

  -- The request line and the headers, which HTTP/0.9 has none of.
  unfoldable pub read_head : ℕ → List ℕ → Step (Request × List ℕ)
  unfolding read_rfc_line read_headers
  read_head fuel input = read_rfc_line input >>= λ (line, rest). parse_request_line line >>= λ r.
      if is_http09 r.version then ok (r, rest) else read_headers fuel r rest
