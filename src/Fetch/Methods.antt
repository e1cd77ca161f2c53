-- ===== src/Fetch/Methods.antt =====
-- vk_fetch_s.h and vk_fetch.c: methods, versions and trailers.
use Prim.Native.Nat.{ℕ}
use mnvkd.Base.{Option, none, some, List, [], ◌∷◌, codes, get_elem?}
use mnvkd.Enum.{string_to, to_string}

-- `enum HTTP_METHOD`
pub data HttpMethod : Type 0 where
  connect : HttpMethod
  delete : HttpMethod
  get : HttpMethod
  head : HttpMethod
  options : HttpMethod
  patch : HttpMethod
  post : HttpMethod
  pri : HttpMethod
  put : HttpMethod
  trace : HttpMethod
  track : HttpMethod
  no_method : HttpMethod

-- The values, by their numbers.
abbrev http_method_values : List HttpMethod
http_method_values =
    connect ∷ delete ∷ get ∷ head ∷ options ∷ patch ∷ post ∷ pri ∷ put ∷ trace ∷ track ∷ no_method
    ∷ []

abbrev pub http_method_to_int : HttpMethod → ℕ
http_method_to_int connect = 0
http_method_to_int delete = 1
http_method_to_int get = 2
http_method_to_int head = 3
http_method_to_int options = 4
http_method_to_int patch = 5
http_method_to_int post = 6
http_method_to_int pri = 7
http_method_to_int put = 8
http_method_to_int trace = 9
http_method_to_int track = 10
http_method_to_int no_method = 11

-- Only sizes of the tables, which are values, are cast.
abbrev pub int_to_http_method : ℕ → HttpMethod
int_to_http_method n = or_value (get_elem? http_method_values n)
  where
    or_value : Option HttpMethod → HttpMethod
    or_value none = no_method
    or_value (some v) = v

abbrev pub methods : List (HttpMethod × List ℕ)
methods =
    (connect, codes "CONNECT")
    ∷ (delete, codes "DELETE")
    ∷ (get, codes "GET")
    ∷ (head, codes "HEAD")
    ∷ (options, codes "OPTIONS")
    ∷ (patch, codes "PATCH")
    ∷ (post, codes "POST")
    ∷ (pri, codes "PRI")
    ∷ (put, codes "PUT")
    ∷ (trace, codes "TRACE")
    ∷ (track, codes "TRACK")
    ∷ []

unfoldable pub string_to_http_method : List ℕ → HttpMethod
unfolding string_to
string_to_http_method key = string_to int_to_http_method methods key

unfoldable pub http_method_to_string : HttpMethod → List ℕ
unfolding to_string
http_method_to_string a = to_string http_method_to_int methods a

-- `enum HTTP_VERSION`
pub data HttpVersion : Type 0 where
  http09 : HttpVersion
  http10 : HttpVersion
  http11 : HttpVersion
  http20 : HttpVersion
  no_version : HttpVersion

-- The values, by their numbers.
abbrev http_version_values : List HttpVersion
http_version_values = http09 ∷ http10 ∷ http11 ∷ http20 ∷ no_version ∷ []

abbrev pub http_version_to_int : HttpVersion → ℕ
http_version_to_int http09 = 0
http_version_to_int http10 = 1
http_version_to_int http11 = 2
http_version_to_int http20 = 3
http_version_to_int no_version = 4

-- Only sizes of the tables, which are values, are cast.
abbrev pub int_to_http_version : ℕ → HttpVersion
int_to_http_version n = or_value (get_elem? http_version_values n)
  where
    or_value : Option HttpVersion → HttpVersion
    or_value none = no_version
    or_value (some v) = v

abbrev pub versions : List (HttpVersion × List ℕ)
versions =
    (http09, codes "HTTP/0.9")
    ∷ (http10, codes "HTTP/1.0")
    ∷ (http11, codes "HTTP/1.1")
    ∷ (http20, codes "HTTP/2.0")
    ∷ []

unfoldable pub string_to_http_version : List ℕ → HttpVersion
unfolding string_to
string_to_http_version key = string_to int_to_http_version versions key

unfoldable pub http_version_to_string : HttpVersion → List ℕ
unfolding to_string
http_version_to_string a = to_string http_version_to_int versions a

-- `enum HTTP_TRAILER`
pub data HttpTrailer : Type 0 where
  post_content_length : HttpTrailer
  http_trailer_count : HttpTrailer

-- The values, by their numbers.
abbrev http_trailer_values : List HttpTrailer
http_trailer_values = post_content_length ∷ http_trailer_count ∷ []

abbrev pub http_trailer_to_int : HttpTrailer → ℕ
http_trailer_to_int post_content_length = 0
http_trailer_to_int http_trailer_count = 1

-- Only sizes of the tables, which are values, are cast.
abbrev pub int_to_http_trailer : ℕ → HttpTrailer
int_to_http_trailer n = or_value (get_elem? http_trailer_values n)
  where
    or_value : Option HttpTrailer → HttpTrailer
    or_value none = http_trailer_count
    or_value (some v) = v

abbrev pub http_trailers : List (HttpTrailer × List ℕ)
http_trailers = (post_content_length, codes "Content-Length") ∷ []

unfoldable pub string_to_http_trailer : List ℕ → HttpTrailer
unfolding string_to
string_to_http_trailer key = string_to int_to_http_trailer http_trailers key

unfoldable pub http_trailer_to_string : HttpTrailer → List ℕ
unfolding to_string
http_trailer_to_string a = to_string http_trailer_to_int http_trailers a
