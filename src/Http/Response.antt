-- ===== src/Http/Response.antt =====
-- `http11_response`: what is written for a request and its entity.
use mnvkd.Base.{
  ℕ, suc, Bool, true, false, ltb, if◌then◌else◌, List, [], ◌∷◌, ◌++◌, length, codes, epipe,
}
use mnvkd.Fetch.{HttpMethod, HttpVersion, get, http09, http10}
use mnvkd.Rfc.Chunks.{ChunkHead, update_head, chunk_header_text, chunk_footer_text}
use mnvkd.Stream.{read_bytes, decimal_digits}
use mnvkd.Http.Head.{Step, ok, raised, Request}

-- A chunk, and the head that is left in the buffer.
unfoldable pub chunk_text : ChunkHead → List ℕ → List ℕ
unfolding chunk_header_text chunk_footer_text
chunk_text c bytes =
    let sized = record c { size = length bytes } in
    chunk_header_text sized ++ (bytes ++ (chunk_footer_text (length bytes)).0)

unfoldable pub next_head : ChunkHead → List ℕ → ChunkHead
unfolding update_head
next_head c bytes = (update_head (record c { size = length bytes })).0

-- The loop over what each `vk_pollread` finds until it has all come in.
unfoldable pub chunks_text : ChunkHead → List (List ℕ) → List ℕ
unfolding chunk_text next_head
chunks_text c [] = []
chunks_text c (bytes ∷ polls) =
    let more = chunks_text (next_head c bytes) polls in
    if ltb 0 (length bytes) then chunk_text c bytes ++ more else chunks_text c polls

-- `vk_writerfcchunkend`
abbrev pub chunk_end : List ℕ
chunk_end = codes "0\r\n\r\n"

abbrev pub is_get : HttpMethod → Bool
is_get get = true
is_get _ = false

abbrev pub html : List ℕ
html =
    codes
      "<html>\n\t<head>\n\t\t<title>HTTP/0.9 response</title>\n\t</head>\n\t<body>\n\t\t<h1>HTTP/0.9 response</h1>\n\t\t<p>This is an example response.</p>\n\t</body>\n</html>\n"

-- `%zu` of a `size_t`, which has twenty digits at most
unfoldable pub size_text : ℕ → List ℕ
unfolding decimal_digits
size_text n = decimal_digits 20 n []

abbrev pub length_header : ℕ → List ℕ
length_header n = codes "Content-Length: " ++ (size_text n ++ codes "\r\n")

-- `vk_forward` of the entity.
abbrev pub forward_entity : ℕ → List ℕ × List ℕ → List ℕ × Step (List ℕ)
forward_entity n (bytes, rest) = (bytes, if ltb (length bytes) n then raised epipe else ok rest)

abbrev pub written {ℓ} : {A : Type ℓ} → List ℕ → List ℕ × Step A → List ℕ × Step A
written text (more, step) = (text ++ more, step)

abbrev pub concat_all : List (List ℕ) → List ℕ
concat_all [] = []
concat_all (bytes ∷ polls) = bytes ++ concat_all polls

abbrev pub http10_entity : Request → List ℕ → List ℕ × Step (List ℕ)
http10_entity r input =
    if is_get r.method
    then (codes "Hello, World!\n", ok input)
    else if ltb 0 r.content_length
    then forward_entity r.content_length (read_bytes r.content_length input)
    else ([], ok input)

unfoldable pub http10_response : Request → List ℕ → List ℕ × Step (List ℕ)
unfolding read_bytes size_text
http10_response r input = written (codes "HTTP/1.0 200 OK\r\nContent-Type: text/plain\r\n") (
    written
      (if is_get r.method then codes "Content-Length: 14\r\n" else length_header r.content_length)
      (written (codes "\r\n") (http10_entity r input)))

abbrev pub http11_head : Request → List ℕ
http11_head r =
    codes "HTTP/1.1 200 OK\r\nContent-Type: text/plain\r\n"
    ++ ((if r.chunked then codes "Transfer-Encoding: chunked\r\n" else [])
        ++ (if r.close then codes "Connection: close\r\n" else []))

-- The entity comes in by pieces until it is hung up.
unfoldable pub http11_entity : ChunkHead → Request → List (List ℕ) → List ℕ × Step (List ℕ)
unfolding chunks_text read_bytes size_text
http11_entity c r polls =
    if is_get r.method
    then (
      if r.chunked
          then codes "d\r\nHello, World!\r\n"
          else codes "Content-Length: 14\r\n\r\nHello, World!\n",
      ok (concat_all polls),
    )
    else if r.chunked
    then (codes "\r\n" ++ (chunks_text c polls ++ chunk_end), ok [])
    else if ltb 0 r.content_length
    then written (length_header r.content_length ++ codes "\r\n")
        (forward_entity r.content_length (read_bytes r.content_length (concat_all polls)))
    else ([], ok (concat_all polls))

abbrev pub respond_as : HttpVersion → ChunkHead → Request → List (List ℕ) → List ℕ × Step (List ℕ)
respond_as http09 c r polls = (html, ok (concat_all polls))
respond_as http10 c r polls = http10_response r (concat_all polls)
respond_as _ c r polls = written (http11_head r) (http11_entity c r polls)

-- One request of the loop.
unfoldable pub respond : ChunkHead → Request → List (List ℕ) → List ℕ × Step (List ℕ)
unfolding http10_response http11_entity
respond c r polls = respond_as r.version c r polls

-- The response after an error, for the text of `strerror`, where it fits the line of 1023 bytes.
unfoldable pub error_response : Bool → List ℕ → List ℕ
unfolding size_text
error_response is_einval message =
    codes "HTTP/1.1 "
    ++ ((if is_einval then codes "400 Bad Request" else codes "500 Internal Server Error")
        ++ (codes "\r\nContent-Type: text/plain\r\nContent-Length: "
            ++ (size_text (suc (length message))
                ++ (codes "\r\nConnection: close\r\n\r\n" ++ (message ++ codes "\n")))))
