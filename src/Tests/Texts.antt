-- ===== src/Tests/Texts.antt =====
-- The header `Host: a`, and sizes in hexadecimal.
use mnvkd.Base.{
  ◌+◌, ◌-◌, length, ok, fail, eproto, ◌≡◌, ◌<◌, refl, pos, arith, [], ◌∷◌, some, if◌then◌else◌,
  ◌==◌,
}
use mnvkd.Rfc.{parse_header, header_text, parse_header-header_text}
use mnvkd.Rfc.Hex.{Buf, size_hex, read_decimals, dec_size, write_digits, last_set, flsl, flsh}
use mnvkd.Rfc.Chunks.{
  ChunkHead, update_head, chunk_header_text, read_chunk_footer, read_chunk_header,
  read_chunk_header-chunk_header_text,
}
use mnvkd.Memory.{tabulate, store}

parse_header-header_text_example :
    parse_header (λ k. pos 0) (header_text (72 ∷ 111 ∷ 115 ∷ 116 ∷ []) (97 ∷ []))
    ≡ record { rc = 1; key = some (72 ∷ 111 ∷ 115 ∷ 116 ∷ []); val = some (97 ∷ []) }
parse_header-header_text_example =
    parse_header-header_text (λ k. pos 0) (72 ∷ 111 ∷ 115 ∷ 116 ∷ []) (97 ∷ []) refl refl refl

abbrev blank : Buf
blank k = 63

abbrev chunk : ChunkHead
chunk = record { size = 0x1f2; head = blank; tail = blank }

chunk_text : chunk_header_text chunk ≡ 49 ∷ 70 ∷ 50 ∷ 13 ∷ 10 ∷ []
unfolding chunk_header_text update_head size_hex write_digits flsh flsl last_set tabulate
chunk_text = refl

read_chunk_header-chunk_header_text_example :
    let rc = length (chunk_header_text chunk) - 2 in
    (e : ChunkHead) × (read_chunk_header chunk (chunk_header_text chunk) ≡ ok (e, rc))
    × (e.size ≡ 0x1f2)
    × (0 < rc)
    × (rc + 2 < 19)
read_chunk_header-chunk_header_text_example =
    read_chunk_header-chunk_header_text chunk chunk (omega arith) (omega arith)

footer_bad : read_chunk_footer chunk (13 ∷ 13 ∷ []) ≡ fail eproto
unfolding read_chunk_footer store
footer_bad = refl

abbrev forty_two : Buf
forty_two k = if k == 0 then 52 else (if k == 1 then 50 else 13)

dec_size_run : dec_size forty_two ≡ 42
unfolding dec_size read_decimals
dec_size_run = refl

size_hex_run : (size_hex blank 18 0x1f2).1 ≡ 3
unfolding size_hex write_digits flsh flsl last_set
size_hex_run = refl
