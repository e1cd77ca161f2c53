-- ===== src/Fetch/Request.antt =====
-- `vk_fetch_request` of vk_fetch.c: the text of a request, for the parts of a `struct vk_fetch`.
use mnvkd.Base.{
  ℕ, leb, if◌then◌else◌, List, [], ◌∷◌, ◌++◌, length, codes, Checked, ok, fail, ◌>>=◌, enobufs,
}
use mnvkd.Rfc.{return, newline, header_text}

-- `vk_writef` of the request line, into a buffer of 1024 bytes.
abbrev pub fits_buffer : List ℕ → Checked (List ℕ)
fits_buffer text = if leb 1024 (length text) then fail enobufs else ok text

unfoldable pub request_line : List ℕ → List ℕ → Checked (List ℕ)
request_line method url =
    fits_buffer (method ++ (codes " " ++ (url ++ (codes " HTTP/1.1" ++ (return ∷ newline ∷ [])))))

-- The loop over the headers.
unfoldable pub headers_text : List (List ℕ × List ℕ) → List ℕ
headers_text [] = []
headers_text ((key, val) ∷ headers) = header_text key val ++ headers_text headers

unfoldable pub head_text : List ℕ → List ℕ → List (List ℕ × List ℕ) → Checked (List ℕ)
unfolding request_line headers_text
head_text method url headers = request_line method url >>= λ line.
    ok (line ++ (headers_text headers ++ (return ∷ newline ∷ [])))
