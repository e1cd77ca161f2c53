-- ===== src/Fetch/Headers.antt =====
-- vk_fetch_s.h and vk_fetch.c: the names of headers.
use Prim.Native.Nat.{ℕ}
use mnvkd.Base.{Option, none, some, List, [], ◌∷◌, codes, get_elem?}
use mnvkd.Enum.{string_to, to_string}

-- `enum HTTP_HEADER`
pub data HttpHeader : Type 0 where
  accept_charset : HttpHeader
  accept_encoding : HttpHeader
  access_control_request_headers : HttpHeader
  access_control_request_method : HttpHeader
  origin : HttpHeader
  authorization : HttpHeader
  connection : HttpHeader
  content_encoding : HttpHeader
  content_language : HttpHeader
  content_length : HttpHeader
  content_location : HttpHeader
  content_type : HttpHeader
  cookie : HttpHeader
  cookie2 : HttpHeader
  date : HttpHeader
  dnt : HttpHeader
  expect : HttpHeader
  host : HttpHeader
  keep_alive : HttpHeader
  referer : HttpHeader
  range : HttpHeader
  setcookie : HttpHeader
  setcookie2 : HttpHeader
  te : HttpHeader
  trailer : HttpHeader
  transfer_encoding : HttpHeader
  upgrade : HttpHeader
  via : HttpHeader
  proxy : HttpHeader
  sec : HttpHeader
  x_http_method : HttpHeader
  x_http_method_override : HttpHeader
  x_method_override : HttpHeader
  http_header_count : HttpHeader

-- The values, by their numbers.
abbrev http_header_values : List HttpHeader
http_header_values =
    accept_charset ∷ accept_encoding ∷ access_control_request_headers
    ∷ access_control_request_method ∷ origin ∷ authorization ∷ connection ∷ content_encoding
    ∷ content_language ∷ content_length ∷ content_location ∷ content_type ∷ cookie ∷ cookie2 ∷ date
    ∷ dnt ∷ expect ∷ host ∷ keep_alive ∷ referer ∷ range ∷ setcookie ∷ setcookie2 ∷ te ∷ trailer
    ∷ transfer_encoding ∷ upgrade ∷ via ∷ proxy ∷ sec ∷ x_http_method ∷ x_http_method_override
    ∷ x_method_override ∷ http_header_count ∷ []

abbrev pub http_header_to_int : HttpHeader → ℕ
http_header_to_int accept_charset = 0
http_header_to_int accept_encoding = 1
http_header_to_int access_control_request_headers = 2
http_header_to_int access_control_request_method = 3
http_header_to_int origin = 4
http_header_to_int authorization = 5
http_header_to_int connection = 6
http_header_to_int content_encoding = 7
http_header_to_int content_language = 8
http_header_to_int content_length = 9
http_header_to_int content_location = 10
http_header_to_int content_type = 11
http_header_to_int cookie = 12
http_header_to_int cookie2 = 13
http_header_to_int date = 14
http_header_to_int dnt = 15
http_header_to_int expect = 16
http_header_to_int host = 17
http_header_to_int keep_alive = 18
http_header_to_int referer = 19
http_header_to_int range = 20
http_header_to_int setcookie = 21
http_header_to_int setcookie2 = 22
http_header_to_int te = 23
http_header_to_int trailer = 24
http_header_to_int transfer_encoding = 25
http_header_to_int upgrade = 26
http_header_to_int via = 27
http_header_to_int proxy = 28
http_header_to_int sec = 29
http_header_to_int x_http_method = 30
http_header_to_int x_http_method_override = 31
http_header_to_int x_method_override = 32
http_header_to_int http_header_count = 33

-- Only sizes of the tables, which are values, are cast.
abbrev pub int_to_http_header : ℕ → HttpHeader
int_to_http_header n = or_value (get_elem? http_header_values n)
  where
    or_value : Option HttpHeader → HttpHeader
    or_value none = http_header_count
    or_value (some v) = v

abbrev pub http_headers : List (HttpHeader × List ℕ)
http_headers =
    (accept_charset, codes "Accept-Charset")
    ∷ (accept_encoding, codes "Accept-Encoding")
    ∷ (access_control_request_headers, codes "Access-Control-Request-Headers")
    ∷ (access_control_request_method, codes "Access-Control-Request-Method")
    ∷ (authorization, codes "Authorization")
    ∷ (connection, codes "Connection")
    ∷ (content_encoding, codes "Content-Encoding")
    ∷ (content_language, codes "Content-Language")
    ∷ (content_length, codes "Content-Length")
    ∷ (content_location, codes "Content-Location")
    ∷ (content_type, codes "Content-Type")
    ∷ (cookie, codes "Cookie")
    ∷ (cookie2, codes "Cookie2")
    ∷ (date, codes "Date")
    ∷ (dnt, codes "DNT")
    ∷ (expect, codes "Expect")
    ∷ (host, codes "Host")
    ∷ (keep_alive, codes "Keep-Alive")
    ∷ (proxy, codes "proxy-%")
    ∷ (range, codes "Range")
    ∷ (referer, codes "Referer")
    ∷ (sec, codes "sec-%")
    ∷ (setcookie, codes "Set-Cookie")
    ∷ (setcookie2, codes "Set-Cookie2")
    ∷ (te, codes "TE")
    ∷ (trailer, codes "Trailer")
    ∷ (transfer_encoding, codes "Transfer-Encoding")
    ∷ (upgrade, codes "Upgrade")
    ∷ (via, codes "Via")
    ∷ (x_http_method, codes "X-HTTP-Method")
    ∷ (x_http_method_override, codes "X-HTTP-Method-Override")
    ∷ (x_method_override, codes "X-Method-Override")
    ∷ []

unfoldable pub string_to_http_header : List ℕ → HttpHeader
unfolding string_to
string_to_http_header key = string_to int_to_http_header http_headers key

unfoldable pub http_header_to_string : HttpHeader → List ℕ
unfolding to_string
http_header_to_string a = to_string http_header_to_int http_headers a
