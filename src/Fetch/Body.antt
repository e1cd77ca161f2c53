-- ===== src/Fetch/Body.antt =====
-- `vk_fetch_request` of vk_fetch.c: the entity of a request.
use mnvkd.Base.{ℕ, ltb, if◌then◌else◌, List, [], ◌∷◌, ◌++◌, length}
use mnvkd.Rfc.Chunks.{ChunkHead, update_head, chunk_header_text, chunk_footer_text}

-- The loop over what each `vk_read` into the buffer finds until the hang-up.
unfoldable pub body_text : ChunkHead → List (List ℕ) → List ℕ
unfolding chunk_header_text update_head chunk_footer_text
body_text c [] = []
body_text c (bytes ∷ reads) =
    let sized = record c { size = length bytes } in
    let more = body_text (update_head sized).0 reads in
    if ltb 0 (length bytes)
    then (chunk_header_text sized ++ (bytes ++ (chunk_footer_text (length bytes)).0)) ++ more
    else body_text c reads
