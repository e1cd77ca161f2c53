-- ===== src/Http/Responses.antt =====
-- vk_http11.c: the responses of `http11_response` that lack the empty line.
use mnvkd.Base.{
  ℕ, Bool, true, false, ◌&&◌, ◌||◌, ltb, ◌==◌, if◌then◌else◌, if_true, if_false, Bool-cases, inl,
  inr, List, [], ◌∷◌, ◌++◌, codes, ◌≡◌, refl, ap, ap₂, ◌∙◌, arith,
}
use mnvkd.Fetch.{HttpVersion, http09, http10, http11, http20, no_version}
use mnvkd.Rfc.{return, newline}
use mnvkd.Rfc.Chunks.{ChunkHead}
use mnvkd.Http.Head.{Step, Request}
use mnvkd.Http.Response.{is_get, http11_head, http11_entity, written, respond_as, respond}

-- Whether an empty line ends what comes before it anywhere in a text.
abbrev pub has_blank_line : List ℕ → Bool
has_blank_line (a ∷ b ∷ c ∷ d ∷ s) =
    ((a == return && b == newline) && (c == return && d == newline))
    || has_blank_line (b ∷ c ∷ d ∷ s)
has_blank_line _ = false

abbrev pub is_http11 : HttpVersion → Bool
is_http11 http09 = false
is_http11 http10 = false
is_http11 http11 = true
is_http11 http20 = true
is_http11 no_version = true

respond_as_lem :
    (v : HttpVersion) (c : ChunkHead) (r : Request) (polls : List (List ℕ))
    → is_http11 v ≡ true
    → respond_as v c r polls ≡ written (http11_head r) (http11_entity c r polls)
respond_as_lem http09 c r polls h = absurd (cc h)
respond_as_lem http10 c r polls h = absurd (cc h)
respond_as_lem http11 c r polls h = refl
respond_as_lem http20 c r polls h = refl
respond_as_lem no_version c r polls h = refl

-- A head by its two flags, and what stands behind it.
abbrev head_and : Bool → Bool → List ℕ → List ℕ
head_and chunked close more =
    (codes "HTTP/1.1 200 OK\r\nContent-Type: text/plain\r\n"
      ++ ((if chunked then codes "Transfer-Encoding: chunked\r\n" else [])
          ++ (if close then codes "Connection: close\r\n" else [])))
    ++ more

chunked_get :
    (close : Bool) → has_blank_line (head_and true close (codes "d\r\nHello, World!\r\n")) ≡ false
chunked_get true = refl
chunked_get false = refl

no_entity : (close : Bool) → has_blank_line (head_and false close []) ≡ false
no_entity true = refl
no_entity false = refl

no_length : (get : Bool) (n : ℕ) → get ≡ false → (get || (n == 0)) ≡ true → ltb 0 n ≡ false
no_length get n e none = ground arith

-- The response in HTTP/1.1 to a GET that asks for chunks, whatever its Content-Length, and to any
-- other request that is not chunked and has no Content-Length, or one of 0, has no empty line
-- behind its headers or anywhere.
pub respond_without_end :
    (c : ChunkHead) (r : Request) (polls : List (List ℕ))
    → is_http11 r.version ≡ true
    → is_get r.method ≡ r.chunked
    → (is_get r.method || (r.content_length == 0)) ≡ true
    → has_blank_line (respond c r polls).0 ≡ false
unfolding respond http11_entity
respond_without_end c r polls v same none =
    let whole =
      ap (λ (w : List ℕ × Step (List ℕ)). has_blank_line w.0)
        (respond_as_lem r.version c r polls v) in
    elim (Bool-cases r.chunked) [
      | inl e ↦
          whole
          ∙ (ap (λ (z : List ℕ × Step (List ℕ)). has_blank_line (head_and r.chunked r.close z.0))
                (if_true (is_get r.method) _ _ (same ∙ e))
              ∙ (ap₂ (λ z t. has_blank_line (head_and z r.close t)) e (if_true r.chunked _ _ e)
                  ∙ chunked_get r.close))
      | inr e ↦
          let empty = no_length (is_get r.method) r.content_length (same ∙ e) none in
          whole
          ∙ (ap (λ (z : List ℕ × Step (List ℕ)). has_blank_line (head_and r.chunked r.close z.0))
                (if_false (is_get r.method) _ _ (same ∙ e))
              ∙ (ap₂
                    (λ (z : Bool) (t : List ℕ × Step (List ℕ)).
                      has_blank_line (head_and z r.close t.0))
                    e (if_false r.chunked _ _ e ∙ if_false (ltb 0 r.content_length) _ _ empty)
                  ∙ no_entity r.close))
    ]
