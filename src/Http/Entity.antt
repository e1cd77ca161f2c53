-- ===== src/Http/Entity.antt =====
-- `http11_request`, from the entity on: what is forwarded to the response, the trailers, and the
-- preface of HTTP/2.
use mnvkd.Base.{
  ℕ, zero, suc, ℤ, Bool, true, false, not, ◌&&◌, ltb, ◌==◌, if◌then◌else◌, Option, some, none, List,
  [], ◌∷◌, ◌++◌, length, epipe, einval, Checked, fail, ok as checked,
}
use mnvkd.Fetch.{
  HttpMethod, HttpVersion, HttpTrailer, pri, http20, post_content_length, string_to_http_trailer,
}
use mnvkd.Rfc.{rtrim}
use mnvkd.Rfc.Hex.{dec_size}
use mnvkd.Rfc.Chunks.{ChunkHead, read_chunk_header, read_chunk_footer}
use mnvkd.Stream.{read_bytes, read_line}
use mnvkd.Http.Head.{Step, ok, raised, overran, no_fuel, ◌>>=◌, Request, as_buf, keep, read_header}

-- The bytes that were forwarded before how it went on.
abbrev pub forwarded {ℓ} : {A : Type ℓ} → List ℕ → List ℕ × Step A → List ℕ × Step A
forwarded bytes (more, step) = (bytes ++ more, step)

-- Another chunk, while the last one had a size.
abbrev pub go_on :
    (ChunkHead → List ℕ → List ℕ × Step (ChunkHead × List ℕ))
    → ChunkHead
    → List ℕ
    → Bool
    → List ℕ × Step (ChunkHead × List ℕ)
go_on next c rest true = next c rest
go_on next c rest false = ([], ok (c, rest))

abbrev pub after_footer :
    (ChunkHead → List ℕ → List ℕ × Step (ChunkHead × List ℕ))
    → List ℕ
    → Checked (ChunkHead × ℕ)
    → List ℕ × Step (ChunkHead × List ℕ)
after_footer next rest (fail e) = ([], raised e)
after_footer next rest (checked (c, rc)) = go_on next c rest (ltb 0 c.size)

-- `vk_forward` of a chunk, of which `bytes` came in.
abbrev pub forward_chunk :
    (ChunkHead → List ℕ → List ℕ × Step (ChunkHead × List ℕ))
    → ChunkHead
    → List ℕ × List ℕ
    → List ℕ × Step (ChunkHead × List ℕ)
forward_chunk next c (bytes, rest) =
    let (tail, left) = read_bytes 2 rest in
    forwarded bytes (
      if not (length bytes == c.size)
      then ([], raised epipe)
      else after_footer next left (read_chunk_footer c tail))

abbrev pub after_chunk_header :
    (ChunkHead → List ℕ → List ℕ × Step (ChunkHead × List ℕ))
    → List ℕ
    → Checked (ChunkHead × ℕ)
    → List ℕ × Step (ChunkHead × List ℕ)
after_chunk_header next rest (fail e) = ([], raised e)
after_chunk_header next rest (checked (c, zero)) = ([], ok (c, rest))
after_chunk_header next rest (checked (c, suc rc)) = forward_chunk next c (read_bytes c.size rest)

-- The loop over the chunks, with fuel. `vk_readrfcchunkheader` reads a line into its buffer of 19
-- bytes, 17 bytes at most where there is no newline, and goes on with what `read_chunk_header` is given.
unfoldable pub read_chunks : ℕ → ChunkHead → List ℕ → List ℕ × Step (ChunkHead × List ℕ)
unfolding read_line read_bytes read_chunk_header read_chunk_footer
read_chunks zero c input = ([], no_fuel)
read_chunks (suc fuel) c input =
    let (line, rest) = read_line 17 input in
    if ltb 19 (length line)
    then ([], overran (length line))
    else after_chunk_header (read_chunks fuel) rest (read_chunk_header c line)

-- What a trailer says of the request.
abbrev pub heed_trailer : Request → HttpTrailer → List ℕ → Request
heed_trailer r post_content_length val = record r { content_length = dec_size (as_buf val) }
heed_trailer r _ val = r

unfoldable pub add_trailer : Request → List ℕ → List ℕ → Request
unfolding string_to_http_trailer
add_trailer r key val = keep (heed_trailer r (string_to_http_trailer key) val) key val

-- Where the handling of an entity ends: in a request that goes on with the input that is left, or out
-- of the loop over the requests.
pub data Entity : Type 0 where
  goes_on : Request → ChunkHead → List ℕ → Entity
  breaks : Request → Entity

-- Whether `vk_hup` was called stands beside what was forwarded.
pub record Served : Type 0 where
  pub bytes : List ℕ
  pub hup : Bool
  pub entity : Step Entity

abbrev pub is_pri : HttpMethod → Bool
is_pri pri = true
is_pri _ = false

abbrev pub is_http20 : HttpVersion → Bool
is_http20 http20 = true
is_http20 _ = false

-- `errno`, which a raised error is taken from where nothing sets it.
module _ (below : ℕ → ℤ) (errno : ℕ) where
  abbrev pub after_trailer :
      (Request → List ℕ → Step (Request × List ℕ))
      → Request
      → Option (List ℕ × List ℕ) × List ℕ
      → Step (Request × List ℕ)
  after_trailer next r (none, rest) = ok (r, rest)
  after_trailer next r (some (key, val), rest) = next (add_trailer r key val) rest

  unfoldable pub read_trailers : ℕ → Request → List ℕ → Step (Request × List ℕ)
  unfolding read_header
  read_trailers zero r input = no_fuel
  read_trailers (suc fuel) r input =
      read_header below input >>= λ trailer. after_trailer (read_trailers fuel) r trailer

  abbrev pub forward_fixed : Request → ChunkHead → List ℕ × List ℕ → Served
  forward_fixed r c (bytes, rest) = record {
    bytes = bytes;
    hup = false;
    entity = if not (length bytes == r.content_length) then raised epipe else ok (goes_on r c rest);
  }

  abbrev pub after_chunks : ℕ → Request → List ℕ × Step (ChunkHead × List ℕ) → Served
  after_chunks fuel r (bytes, ok (c, rest)) = record {
    bytes = bytes;
    hup = true;
    entity = read_trailers fuel r rest >>= λ (r', left). ok (goes_on r' c left);
  }
  after_chunks fuel r (bytes, raised e) = record { bytes = bytes; hup = false; entity = raised e }
  after_chunks fuel r (bytes, overran n) = record { bytes = bytes; hup = false; entity = overran n }
  after_chunks fuel r (bytes, no_fuel) = record { bytes = bytes; hup = false; entity = no_fuel }

  -- The lines of the preface: a second one that is not empty raises whatever error there was.
  abbrev pub preface_end : Request → ChunkHead → List ℕ × List ℕ → Step Entity
  preface_end r c (line, rest) =
      if ltb 1024 (length line)
      then overran (length line)
      else if not (length line == 0)
      then raised errno
      else ok (goes_on r c rest)

  abbrev pub is_sm : List ℕ → Bool
  is_sm (x ∷ y ∷ []) = x == b'S' && y == b'M'
  is_sm (x ∷ y ∷ z ∷ s) = false
  is_sm (x ∷ []) = false
  is_sm [] = false

  abbrev pub preface : Request → ChunkHead → List ℕ × List ℕ → Step Entity
  preface r c (line, rest) =
      if ltb 1024 (length line)
      then overran (length line)
      else if length line == 0
      then ok (breaks r)
      else if not (is_sm (rtrim line))
      then raised einval
      else preface_end r c (read_line 1023 rest)

  unfoldable pub read_entity : ℕ → Request → ChunkHead → List ℕ → Served
  unfolding read_chunks read_trailers
  read_entity fuel r c input =
      if ltb 0 r.content_length
      then forward_fixed r c (read_bytes r.content_length input)
      else if r.chunked
      then after_chunks fuel r (read_chunks fuel c input)
      else if is_pri r.method && is_http20 r.version
      then record { bytes = []; hup = false; entity = preface r c (read_line 1023 input) }
      else record { bytes = []; hup = false; entity = ok (goes_on r c input) }
