-- ===== src/Tests/Heads.antt =====
-- The request `GET /a` with two headers, a chunked entity of two pieces, and responses without an end.
use mnvkd.Base.{
  ℕ, ℤ, pos, true, false, List, [], ◌∷◌, ◌++◌, length, take, codes, none, ok as checked, epipe, ◌≡◌,
  refl, strcasecmp, arith,
}
use mnvkd.Rfc.{header_text}
use mnvkd.Rfc.Chunks.{ChunkHead}
use mnvkd.Enum.{or_size, string_to, to_string, validate, strcmp}
use mnvkd.Enum.Search.{string_to-lookup_row, lookup_row}
use mnvkd.Fetch.{
  get, post, methods, int_to_http_method, http11, http_headers, http_header_to_int,
  http_header_to_string, string_to_http_header, string_to_http_method, x_method_override, origin,
}
use mnvkd.Fetch.Tables.{methods_sorted, unknown_header}
use mnvkd.Fetch.Request.{request_line, headers_text, head_text}
use mnvkd.Fetch.Body.{body_text}
use mnvkd.Http.Head.{ok, raised, Request, start, read_head}
use mnvkd.Http.Kept.{Headers, cut, says_chunked, says_close, any_header}
use mnvkd.Http.Requests.{read_head-head_text}
use mnvkd.Http.Entity.{goes_on, read_chunks, read_entity}
use mnvkd.Http.Response.{chunks_text, chunk_end, respond}
use mnvkd.Http.Entities.{read_entity-chunks_text, read_chunks-body_text}
use mnvkd.Http.Responses.{has_blank_line, respond_without_end}

abbrev headers : Headers
headers = (codes "Host", codes "b") ∷ (codes "Connection", codes "close") ∷ []

abbrev request_text : List ℕ
request_text = codes "GET /a HTTP/1.1\r\nHost: b\r\nConnection: close\r\n\r\n"

made : head_text (codes "GET") (codes "/a") headers ≡ checked request_text
unfolding head_text request_line headers_text header_text
made = refl

abbrev below : ℕ → ℤ
below k = pos 0

read_head-head_text_example :
    (r : Request) × (read_head below 3 (request_text ++ (97 ∷ [])) ≡ ok (r, 97 ∷ []))
    × (r.method ≡ string_to_http_method (codes "GET"))
    × (r.uri ≡ take 1023 (codes "/a"))
    × (r.version ≡ http11)
    × (r.headers ≡ take 15 (cut headers))
    × (r.header_count ≡ length r.headers)
    × (r.chunked ≡ any_header says_chunked headers)
    × (r.close ≡ any_header says_close headers)
read_head-head_text_example =
    read_head-head_text below 3 (codes "GET") (codes "/a") headers (97 ∷ []) request_text refl refl
      refl (omega arith) made

abbrev chunk : ChunkHead
chunk = record { size = 0; head = λ k. 63; tail = λ k. 63 }

abbrev polls : List (List ℕ)
polls = (97 ∷ 98 ∷ 99 ∷ []) ∷ [] ∷ (100 ∷ []) ∷ []

abbrev chunked_post : Request
chunked_post = record (start post (codes "/a") http11) { chunked = true }

read_entity-chunks_text_example :
    (e : ChunkHead) × (read_entity below 0 4 chunked_post chunk
        (chunks_text chunk polls ++ (chunk_end ++ (97 ∷ [])))
      ≡ record {
        bytes = 97 ∷ 98 ∷ 99 ∷ 100 ∷ [];
        hup = true;
        entity = ok (goes_on chunked_post e (97 ∷ []));
      })
read_entity-chunks_text_example =
    read_entity-chunks_text below 0 4 chunked_post chunk chunk polls (97 ∷ []) refl refl refl
      (omega arith)

read_chunks-body_text_example :
    read_chunks 4 chunk (body_text chunk polls) ≡ (97 ∷ 98 ∷ 99 ∷ 100 ∷ [], raised epipe)
read_chunks-body_text_example = read_chunks-body_text 4 chunk chunk polls refl (omega arith)

respond_without_end_example :
    has_blank_line
      (respond chunk
        (record (start get (codes "/a") http11) { chunked = true; content_length = 5 })
        []).0
    ≡ false
respond_without_end_example =
    respond_without_end chunk
      (record (start get (codes "/a") http11) { chunked = true; content_length = 5 }) [] refl refl
      refl

string_to-lookup_row_example :
    string_to int_to_http_method methods (codes "post")
    ≡ or_size int_to_http_method 11 (lookup_row methods (codes "post"))
string_to-lookup_row_example =
    string_to-lookup_row int_to_http_method methods (codes "post") methods_sorted

no_row : lookup_row http_headers (codes "X-Request-Id") ≡ none
unfolding strcasecmp
no_row = refl

unknown_header_example : string_to_http_header (codes "X-Request-Id") ≡ x_method_override
unknown_header_example = unknown_header (codes "X-Request-Id") no_row

-- The text of `origin` is that of the header behind it, and the check of the table fails.
origin_text : http_header_to_string origin ≡ codes "Authorization"
unfolding http_header_to_string to_string
origin_text = refl

table_refused : validate http_header_to_int http_headers ≡ false
unfolding validate strcmp
table_refused = refl
