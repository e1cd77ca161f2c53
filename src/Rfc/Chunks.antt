-- ===== src/Rfc/Chunks.antt =====
-- vk_rfc.c and vk_rfc.h: the head of a chunk, which is its size in hexadecimal on a line, and how it
-- is written and read.
use mnvkd.Base.{
  ℕ, zero, suc, ◌+◌, ◌-◌, ◌^◌, ◌<◌, ◌≤◌, not, ◌&&◌, ◌||◌, ltb, leb, ◌==◌, if◌then◌else◌, if_true,
  if_false, length, List, [], ◌∷◌, ◌++◌, Checked, ok, fail, epipe, eproto, ◌≡◌, sym, ap, ap₂, subst,
  ◌∙◌, arith,
}
use mnvkd.Memory.{tabulate, load, store, tabulate-add, tabulate_ext, length-tabulate}
use mnvkd.Rfc.{return, newline, rtrim, rtrim_end}
use mnvkd.Rfc.Hex.{Buf, put, size_hex, hex_size}
use mnvkd.Rfc.Digits.{Holds, read_Holds}
use mnvkd.Rfc.Sizes.{size_hex-Holds}

-- `struct vk_rfcchunkhead`
pub record ChunkHead : Type 0 where
  pub size : ℕ
  pub head : Buf
  pub tail : Buf

unfoldable pub update_size : ChunkHead → ChunkHead
update_size c = record c { size = hex_size c.head }

unfoldable pub update_head : ChunkHead → ChunkHead × ℕ
update_head c =
    let (val, rc) = size_hex c.head 18 c.size in
    (record c { head = put (put (put val rc return) (rc + 1) newline) (rc + 2) 0 }, rc + 2)

-- What `vk_socket_writerfcchunkheader` writes.
unfoldable pub chunk_header_text : ChunkHead → List ℕ
chunk_header_text c = let (c1, rc) = update_head c in load c1.head 0 rc

-- The buffer with a line of which all but the first `rc` characters have been trimmed, and a NUL.
abbrev pub trimmed : Buf → List ℕ → ℕ → Buf
trimmed head line rc =
    let read = store head 0 line in
    put (λ k. if leb rc k && ltb k (length line) then 0 else read k) rc 0

-- What is left in `rc_arg`, for a line of `len` characters of which `rc` are left; fail is an error
-- that is raised.
abbrev pub finish_header : ChunkHead → ℕ → ℕ → Checked (ChunkHead × ℕ)
finish_header c len rc =
    if len == 0
    then fail epipe
    else (if rc == 0 || ltb 17 rc then fail eproto else ok (c, if c.size == 0 then 0 else rc))

-- `vk_socket_readrfcchunkheader` behind the read of its line, which it is given.
unfoldable pub read_chunk_header : ChunkHead → List ℕ → Checked (ChunkHead × ℕ)
read_chunk_header c line =
    let rc = length (rtrim line) in
    finish_header (update_size (record c { head = trimmed c.head line rc })) (length line) rc

-- The bytes that `vk_socket_writerfcchunkfooter` writes, and `rc_arg` with their number added.
unfoldable pub chunk_footer_text : ℕ → List ℕ × ℕ
chunk_footer_text rc = (return ∷ newline ∷ [], rc + 2)

-- The tail that is read, which must be the end of a line.
abbrev pub finish_footer : ChunkHead → Checked (ChunkHead × ℕ)
finish_footer c =
    if not (c.tail 0 == return) || not (c.tail 1 == newline) then fail eproto else ok (c, 2)

-- `vk_socket_readrfcchunkfooter` of the bytes that it reads, if it reads any
unfoldable pub read_chunk_footer : ChunkHead → List ℕ → Checked (ChunkHead × ℕ)
read_chunk_footer c bytes =
    if ltb 0 c.size
    then (if not (length bytes == 2)
        then fail epipe
        else finish_footer (record c { tail = put (store c.tail 0 bytes) 2 0 }))
    else ok (c, 0)

-- What a table stores.
store-tabulate :
    (m : Buf) (f : ℕ → ℕ) (off i n k : ℕ)
    → k < n
    → store m off (tabulate f i n) (off + k) ≡ f (i + k)
unfolding store tabulate
store-tabulate m f off i zero k h = absurd (omega arith)
store-tabulate m f off i (suc n) zero h = ground arith
store-tabulate m f off i (suc n) (suc k) h =
    if_false (off + suc k == off) (f i) (store m (off + 1) (tabulate f (i + 1) n) (off + suc k))
      (ground arith)
    ∙ (ap (store m (off + 1) (tabulate f (i + 1) n)) (omega arith)
        ∙ (store-tabulate m f (off + 1) (i + 1) n k (omega arith) ∙ ap f (omega arith)))

Holds-same :
    (n j size : ℕ) (val val' : Buf)
    → ((k : ℕ) → j ≤ k → k < j + n → val' k ≡ val k)
    → Holds n j size val
    → Holds n j size val'
unfolding Holds
Holds-same zero j size val val' same t = tt
Holds-same (suc n) j size val val' same (d, ds) = (
  same j (omega arith) (omega arith) ∙ d,
  Holds-same n (j + 1) size val val' (λ k a b. same k (omega arith) (omega arith)) ds,
)

-- The line: the digits and its end.
module _ (val : Buf) (rc : ℕ) where
  abbrev pub ended : Buf
  ended = put (put (put val rc return) (rc + 1) newline) (rc + 2) 0

  ended_digits : (k : ℕ) → k < rc → ended k ≡ val k
  ended_digits k h = ground arith

  pub ended_line : load ended 0 (rc + 2) ≡ load val 0 rc ++ (return ∷ newline ∷ [])
  unfolding tabulate
  ended_line =
      tabulate-add ended 0 rc 2
      ∙ ap₂ ◌++◌ (tabulate_ext ended val 0 0 rc λ j h. ended_digits (0 + j) (omega arith))
          (ap₂ (λ a b. a ∷ b ∷ []) (ground arith) (ground arith))

  rtrim-ended : rtrim (load ended 0 (rc + 2)) ≡ load val 0 rc
  rtrim-ended = ap rtrim ended_line ∙ rtrim_end (load val 0 rc)

  length-ended : length (load ended 0 (rc + 2)) ≡ rc + 2
  length-ended = length-tabulate ended 0 (rc + 2)

  trimmed_digits : (m : Buf) (k : ℕ) → k < rc → trimmed m (load ended 0 (rc + 2)) rc k ≡ val k
  trimmed_digits m k h =
      if_false (k == rc) 0 _ (ground arith)
      ∙ (if_false (leb rc k && ltb k (length (load ended 0 (rc + 2)))) 0 _ (ground arith)
          ∙ (subst (λ i. store m 0 (load ended 0 (rc + 2)) i ≡ ended i) (start k)
                (store-tabulate m ended 0 0 (rc + 2) k (omega arith))
              ∙ ended_digits k h))
    where
      start : (i : ℕ) → 0 + i ≡ i
      start i = omega arith

finish_header_lem :
    (c : ChunkHead) (len rc : ℕ)
    → 0 < len
    → 0 < rc
    → rc ≤ 17
    → 0 < c.size
    → finish_header c len rc ≡ ok (c, rc)
finish_header_lem c len rc line some few more = ground arith

-- The size that is read back.
module _ (c d : ChunkHead) (p : 0 < c.size) (q : c.size < 2 ^ 61) where
  abbrev digits : ℕ
  digits = (size_hex c.head 18 c.size).1

  abbrev line : List ℕ
  line = load (ended (size_hex c.head 18 c.size).0 digits) 0 (digits + 2)

  length-rtrim : length (rtrim line) ≡ digits
  length-rtrim =
      ap length (rtrim-ended (size_hex c.head 18 c.size).0 digits)
      ∙ length-tabulate (size_hex c.head 18 c.size).0 0 digits

  size_lem : hex_size (trimmed d.head line digits) ≡ c.size
  unfolding hex_size
  size_lem =
      let val = (size_hex c.head 18 c.size).0 in
      let (n, counted, few, _, above, held) = size_hex-Holds c.head 18 c.size (omega arith) p q in
      let kept =
        Holds-same (suc n) 0 c.size val (trimmed d.head line digits)
          (λ k a b. trimmed_digits val digits d.head k (omega (arith, counted))) held in
      read_Holds (suc n) 16 0 0 c.size (trimmed d.head line digits) (omega arith) (omega arith)
        above kept (if_true (0 + suc n == digits) 0 _ (ground (arith, counted)))

-- Reading the line that is written for the head of a chunk gives its size back, and the number of
-- digits, which is from 1 to 16, whatever the head read into held before: for a size that is not 0
-- and below 2 ^ 61. With its end and a NUL the line fits the 19 bytes that it is written to.
pub read_chunk_header-chunk_header_text :
    (c d : ChunkHead)
    → 0 < c.size
    → c.size < 2 ^ 61
    → let rc = length (chunk_header_text c) - 2 in
      (e : ChunkHead) × (read_chunk_header d (chunk_header_text c) ≡ ok (e, rc))
      × (e.size ≡ c.size)
      × (0 < rc)
      × (rc + 2 < 19)
unfolding chunk_header_text update_head read_chunk_header update_size
read_chunk_header-chunk_header_text c d p q =
    let text = line c d p q in
    let rc = digits c d p q in
    let (n, counted, few, _, _, _) = size_hex-Holds c.head 18 c.size (omega arith) p q in
    let whole = length-ended (size_hex c.head 18 c.size).0 rc in
    let left = length-rtrim c d p q in
    let size_is = ap (λ k. hex_size (trimmed d.head text k)) left ∙ size_lem c d p q in
    let e = update_size (record d { head = trimmed d.head text (length (rtrim text)) }) in
    let rc_is : length text - 2 ≡ rc = omega (arith, whole) in
    (
      e,
      finish_header_lem e (length text) (length (rtrim text)) (omega (arith, whole))
            (omega (arith, left, counted)) (omega (arith, left, counted, few))
            (omega (arith, size_is))
          ∙ ap (λ k. ok (e, k)) (left ∙ sym rc_is),
      size_is,
      omega (arith, rc_is, counted),
      omega (arith, rc_is, counted, few),
    )
