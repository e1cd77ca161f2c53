-- ===== src/Http/Kept.antt =====
-- vk_http11.c: what the loop over the headers makes of them.
use mathlib.Core.List.{append_assoc, append-nil}
use mnvkd.Base.{
  ℕ, ◌+◌, ◌≤◌, Bool, true, false, ◌||◌, leb, if◌then◌else◌, if_true, if_false, Bool-cases, inl, inr,
  List, [], ◌∷◌, ◌++◌, take, take-all, take-append, take-min, min, length, length-append, codes,
  ◌≡◌, refl, sym, ap, ◌∙◌, arith,
}
use mnvkd.Fetch.{HttpHeader, transfer_encoding, connection, string_to_http_header}
use mnvkd.Http.Head.{Request, copy_into, is_same, heed, add_header}

abbrev pub Headers : Type 0
Headers = List (List ℕ × List ℕ)

abbrev pub add_all : Request → Headers → Request
add_all r [] = r
add_all r ((key, val) ∷ headers) = add_all (add_header r key val) headers

-- Whether a header asks for what it is about.
abbrev pub says_chunked : HttpHeader → List ℕ → Bool
says_chunked transfer_encoding val = is_same val (codes "chunked")
says_chunked _ val = false

abbrev pub says_close : HttpHeader → List ℕ → Bool
says_close connection val = is_same val (codes "close")
says_close _ val = false

abbrev pub any_header : (HttpHeader → List ℕ → Bool) → Headers → Bool
any_header says [] = false
any_header says ((key, val) ∷ headers) =
    says (string_to_http_header key) val || any_header says headers

-- The headers as they are stored.
abbrev pub cut : Headers → Headers
cut [] = []
cut ((key, val) ∷ headers) = (copy_into 31 key, copy_into 95 val) ∷ cut headers

or_lem : (a b : Bool) → (if a then true else b) ≡ (a || b)
or_lem true b = refl
or_lem false b = refl

heed_chunked :
    (r : Request) (h : HttpHeader) (val : List ℕ)
    → (heed r h val).chunked ≡ (says_chunked h val || r.chunked)
heed_chunked r transfer_encoding val = or_lem (is_same val (codes "chunked")) r.chunked
heed_chunked r _ val = refl

heed_close :
    (r : Request) (h : HttpHeader) (val : List ℕ)
    → (heed r h val).close ≡ (says_close h val || r.close)
heed_close r connection val = or_lem (is_same val (codes "close")) r.close
heed_close r _ val = refl

-- What heeding a header leaves alone.
record Same (r s : Request) : Type 0 where
  method : s.method ≡ r.method
  uri : s.uri ≡ r.uri
  version : s.version ≡ r.version
  headers : s.headers ≡ r.headers
  header_count : s.header_count ≡ r.header_count

heed-Same : (r : Request) (h : HttpHeader) (val : List ℕ) → Same r (heed r h val)
heed-Same r transfer_encoding val = record {
  method = refl;
  uri = refl;
  version = refl;
  headers = refl;
  header_count = refl;
}
heed-Same r _ val = record {
  method = refl;
  uri = refl;
  version = refl;
  headers = refl;
  header_count = refl;
}

-- The headers that are kept, and their count, after one more.
module _ (r : Request) (key val : List ℕ) where
  abbrev pair : List ℕ × List ℕ
  pair = (copy_into 31 key, copy_into 95 val)

  add_header_full :
      (leb 15 r.header_count) ≡ true
      → ((add_header r key val).headers ≡ r.headers)
        × ((add_header r key val).header_count ≡ r.header_count)
  unfolding add_header
  add_header_full e =
      let s = heed-Same r (string_to_http_header key) val in
      let more : leb 15 (heed r (string_to_http_header key) val).header_count ≡ true =
        ap (leb 15) s.header_count ∙ e in
      (if_true _ _ _ more ∙ s.headers, if_true _ _ _ more ∙ s.header_count)

  add_header_room :
      (leb 15 r.header_count) ≡ false
      → ((add_header r key val).headers ≡ r.headers ++ (pair ∷ []))
        × ((add_header r key val).header_count ≡ r.header_count + 1)
  unfolding add_header
  add_header_room e =
      let s = heed-Same r (string_to_http_header key) val in
      let more : leb 15 (heed r (string_to_http_header key) val).header_count ≡ false =
        ap (leb 15) s.header_count ∙ e in
      (
        if_false _ _ _ more ∙ ap (λ hs. hs ++ (pair ∷ [])) s.headers,
        if_false _ _ _ more ∙ ap (λ n. n + 1) s.header_count,
      )

-- As many headers are kept as the request counts, and 15 at most.
pub record Counted (r : Request) : Type 0 where
  pub counted : r.header_count ≡ length r.headers
  pub few : length r.headers ≤ 15

add_header-Counted : (r : Request) (key val : List ℕ) → Counted r → Counted (add_header r key val)
add_header-Counted r key val c = elim (Bool-cases (leb 15 r.header_count)) [
  | inl e ↦
      let (same, count) = add_header_full r key val e in
      record {
        counted = count ∙ (c.counted ∙ sym (ap length same));
        few = omega (arith, ap length same, c.few);
      }
  | inr e ↦
      let (more, count) = add_header_room r key val e in
      let one = ap length more ∙ length-append r.headers (pair r key val ∷ []) in
      record {
        counted = omega (arith, count, one, c.counted);
        few = ground (arith, one, c.counted);
      }
]

pub add_all_headers :
    (r : Request) (headers : Headers)
    → Counted r
    → ((add_all r headers).headers ≡ take 15 (r.headers ++ cut headers))
      × Counted (add_all r headers)
add_all_headers r [] c = (sym (ap (take 15) (append-nil r.headers) ∙ few_taken r.headers c.few), c)
  where
    few_taken : (xs : Headers) → length xs ≤ 15 → take 15 xs ≡ xs
    few_taken xs h =
        let all : min 15 (length xs) ≡ length xs = omega arith in
        sym (take-min 15 xs) ∙ (ap (λ n. take n xs) all ∙ take-all (length xs) xs refl)
add_all_headers r ((key, val) ∷ headers) c =
    let (rest, counted) =
      add_all_headers (add_header r key val) headers (add_header-Counted r key val c) in
    (
      elim (Bool-cases (leb 15 r.header_count)) [
        | inl e ↦
            let (same, count) = add_header_full r key val e in
            let full : 15 ≡ length r.headers = ground (arith, c.counted, c.few) in
            rest
            ∙ (ap (λ hs. take 15 (hs ++ cut headers)) same
                ∙ (take-append r.headers (cut headers) 15 full
                    ∙ sym (take-append r.headers (cut ((key, val) ∷ headers)) 15 full)))
        | inr e ↦
            let (more, count) = add_header_room r key val e in
            rest
            ∙ (ap (λ hs. take 15 (hs ++ cut headers)) more
                ∙ ap (take 15) (append_assoc r.headers (pair r key val ∷ []) (cut headers)))
      ],
      counted,
    )

-- The flags and the fields that the headers leave alone.
add_header_chunked :
    (r : Request) (key val : List ℕ)
    → (add_header r key val).chunked ≡ (says_chunked (string_to_http_header key) val || r.chunked)
unfolding add_header
add_header_chunked r key val = heed_chunked r (string_to_http_header key) val

add_header_close :
    (r : Request) (key val : List ℕ)
    → (add_header r key val).close ≡ (says_close (string_to_http_header key) val || r.close)
unfolding add_header
add_header_close r key val = heed_close r (string_to_http_header key) val

or_swap : (a b c : Bool) → (b || (a || c)) ≡ ((a || b) || c)
or_swap true true c = refl
or_swap true false c = refl
or_swap false true c = refl
or_swap false false c = refl

pub add_all_flags :
    (r : Request) (headers : Headers)
    → ((add_all r headers).chunked ≡ (any_header says_chunked headers || r.chunked))
      × ((add_all r headers).close ≡ (any_header says_close headers || r.close))
add_all_flags r [] = (refl, refl)
add_all_flags r ((key, val) ∷ headers) =
    let (a, b) = add_all_flags (add_header r key val) headers in
    (
      a
          ∙ (ap (λ z. any_header says_chunked headers || z) (add_header_chunked r key val)
              ∙ or_swap (says_chunked (string_to_http_header key) val) _ _),
      b
          ∙ (ap (λ z. any_header says_close headers || z) (add_header_close r key val)
              ∙ or_swap (says_close (string_to_http_header key) val) _ _),
    )

add_header_start :
    (r : Request) (key val : List ℕ)
    → ((add_header r key val).method ≡ r.method)
      × ((add_header r key val).uri ≡ r.uri)
      × ((add_header r key val).version ≡ r.version)
unfolding add_header
add_header_start r key val =
    let s = heed-Same r (string_to_http_header key) val in (s.method, s.uri, s.version)

pub add_all_start :
    (r : Request) (headers : Headers)
    → ((add_all r headers).method ≡ r.method)
      × ((add_all r headers).uri ≡ r.uri)
      × ((add_all r headers).version ≡ r.version)
add_all_start r [] = (refl, refl, refl)
add_all_start r ((key, val) ∷ headers) =
    let (a, b, c) = add_all_start (add_header r key val) headers in
    let (a', b', c') = add_header_start r key val in (a ∙ a', b ∙ b', c ∙ c')
