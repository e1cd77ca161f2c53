-- ===== src/Http/Entities.antt =====
-- vk_http11.c and vk_fetch.c: the entity of a request, in chunks.
use mathlib.Core.List.{append-nil}
use mnvkd.Base.{
  refl, Bool, ◌∷◌, ap₂, leb, ◌&&◌, if◌then◌else◌, ℕ, zero, suc, ◌<◌, ℤ, true, ltb, if_true,
  if_false, List, [], ◌++◌, length, epipe, ◌≡◌, sym, ap, ◌∙◌, arith,
}
use mnvkd.Rfc.Chunks.{ChunkHead}
use mnvkd.Fetch.Body.{body_text}
use mnvkd.Http.Head.{ok, raised, ◌>>=◌, Request, read_rfc_line}
use mnvkd.Http.Heads.{read_header_end}
use mnvkd.Http.Entity.{
  goes_on, forwarded, read_chunks, after_chunks, after_trailer, read_trailers, read_entity,
}
use mnvkd.Http.Response.{chunk_text, next_head, chunks_text, chunk_end, concat_all}
use mnvkd.Http.Chunks.{all_small, read_chunks-chunks_text, read_chunks_end, read_chunks_none}

-- The chunked entity of a request that has no Content-Length, or one of 0, is forwarded as it was cut
-- up and written, and hung up behind its last chunk; the request goes on behind the empty line with
-- its fields unchanged. It holds for pieces of less than 2 ^ 60 bytes, empty ones left out, with more
-- fuel than pieces.
pub read_entity-chunks_text :
    (below : ℕ → ℤ) (errno fuel : ℕ) (r : Request) (c d : ChunkHead) (polls : List (List ℕ))
    (rest : List ℕ)
    → r.content_length ≡ 0
    → r.chunked ≡ true
    → all_small polls ≡ true
    → length polls < fuel
    → (e : ChunkHead) × (read_entity below errno fuel r d
          (chunks_text c polls ++ (chunk_end ++ rest))
        ≡ record { bytes = concat_all polls; hup = true; entity = ok (goes_on r e rest) })
unfolding read_entity read_trailers read_rfc_line
read_entity-chunks_text below errno zero r c d polls rest none on small lt = absurd (omega arith)
read_entity-chunks_text below errno (suc fuel) r c d polls rest none on small lt =
    let (e, fuel', read) =
      read_chunks-chunks_text (suc fuel) c d polls (chunk_end ++ rest) small lt in
    let (e', end) = read_chunks_end fuel' e rest in
    (
      e',
      if_false (ltb 0 r.content_length) _ _ (ground (arith, none))
          ∙ (if_true r.chunked _ _ on
              ∙ (ap (after_chunks below errno (suc fuel) r)
                    (read ∙ ap (forwarded (concat_all polls)) end)
                  ∙ (ap
                        (λ s. record {
                          bytes = concat_all polls ++ [];
                          hup = true;
                          entity = s >>= λ header.
                              after_trailer below errno (read_trailers below errno fuel) r header
                              >>= λ (r', left). ok (goes_on r' e' left);
                        })
                        (read_header_end below rest)
                      ∙ ap (λ t. record { bytes = t; hup = true; entity = ok (goes_on r e' rest) })
                          (append-nil (concat_all polls))))),
    )

-- Pieces without a last chunk are all forwarded, and then the reading fails where the input ends.
read_chunks_cut :
    (fuel : ℕ) (c d : ChunkHead) (polls : List (List ℕ))
    → all_small polls ≡ true
    → length polls < fuel
    → read_chunks fuel d (chunks_text c polls) ≡ (concat_all polls, raised epipe)
read_chunks_cut fuel c d polls small lt =
    let (e, fuel', read) = read_chunks-chunks_text fuel c d polls [] small lt in
    ap (read_chunks fuel d) (sym (append-nil (chunks_text c polls)))
    ∙ (read
        ∙ (ap (forwarded (concat_all polls)) (read_chunks_none fuel' e)
            ∙ ap (λ t. (t, raised epipe)) (append-nil (concat_all polls))))

-- Reads that fit the buffer of 4095 bytes.
abbrev pub all_reads : List (List ℕ) → Bool
all_reads [] = true
all_reads (bytes ∷ reads) = leb (length bytes) 4095 && all_reads reads

reads_small : (reads : List (List ℕ)) → all_reads reads ≡ true → all_small reads ≡ true
reads_small [] h = refl
reads_small (bytes ∷ reads) h = ground (arith, reads_small reads)

body_text-chunks_text :
    (c : ChunkHead) (reads : List (List ℕ)) → body_text c reads ≡ chunks_text c reads
unfolding body_text chunks_text chunk_text next_head
body_text-chunks_text c [] = refl
body_text-chunks_text c (bytes ∷ reads) =
    ap₂ (λ more none. if ltb 0 (length bytes) then chunk_text c bytes ++ more else none)
      (body_text-chunks_text (next_head c bytes) reads) (body_text-chunks_text c reads)

-- The entity that a fetch writes has no last chunk: where the connection ends behind it, the server
-- forwards all its bytes, and then fails with EPIPE. It holds for reads of at most 4095 bytes, with
-- more fuel than reads.
pub read_chunks-body_text :
    (fuel : ℕ) (c d : ChunkHead) (reads : List (List ℕ))
    → all_reads reads ≡ true
    → length reads < fuel
    → read_chunks fuel d (body_text c reads) ≡ (concat_all reads, raised epipe)
read_chunks-body_text fuel c d reads small lt =
    ap (read_chunks fuel d) (body_text-chunks_text c reads)
    ∙ read_chunks_cut fuel c d reads (reads_small reads small) lt
