-- ===== src/Vectoring/Lines/LineLen.antt =====
-- `vk_vectoring_tx_line_len` gives the first line of the ring's contents, also round the end of
-- the buffer.
use mnvkd.Base.{
  ℕ, suc, ◌+◌, ◌^◌, ◌<◌, ◌≤◌, ◌≡◌, refl, sym, ◌∙◌, ap, ap₂, false, Option, none, some, List, [],
  ◌∷◌, ◌++◌, ◌==◌, if◌then◌else◌, length, take, take-all, add_size, arith, Bool-cases, inl, inr,
  member, subst,
}
use mnvkd.Memory.{length-tabulate}
use mnvkd.Vectoring.State.{Vectoring, at, literal, Base, Vectors}
use mnvkd.Vectoring.Transfer.{copy_out, request, recv_bytes, gather}
use mnvkd.Vectoring.Contents.{contents, sync_parts}
use mnvkd.Vectoring.Valid.{IsValid}
use mnvkd.Vectoring.Fifo.{recv_bytes-take, length-contents}
use mnvkd.Vectoring.Lines.{newline, scan, tx_line_len}
use mnvkd.Vectoring.Lines.Laws.{or_else, shift, find_newline-scan}

-- `n` is the length of the first line of `xs` with its newline; `none` says that there is none.
abbrev pub LineResult : Option ℕ → List ℕ → Type 0
LineResult (some n) xs =
    (front : List ℕ) × (take n xs ≡ front ++ (newline ∷ [])) × (member newline front ≡ false)
LineResult none xs = member newline xs ≡ false

abbrev up : Option ℕ → Option ℕ
up none = none
up (some k) = some (suc k)

-- the length of the first line with its newline, byte by byte
line_len : List ℕ → Option ℕ
line_len [] = none
line_len (x ∷ xs) = if x == newline then some 1 else up (line_len xs)

scan-line_len : (xs : List ℕ) (i : ℕ) → up (scan xs i) ≡ shift i (line_len xs)
unfolding scan shift line_len
scan-line_len [] i = refl
scan-line_len (x ∷ xs) i = ground (arith, scan-line_len xs (i + 1))

line_len-append :
    (xs ys : List ℕ) → line_len (xs ++ ys) ≡ or_else (line_len xs) (shift (length xs) (line_len ys))
unfolding line_len or_else shift
line_len-append [] ys = ground arith
line_len-append (x ∷ xs) ys = ground (arith, line_len-append xs ys)

cons-LineResult :
    (x : ℕ) (xs : List ℕ) (o : Option ℕ)
    → (x == newline) ≡ false
    → LineResult o xs
    → LineResult (up o) (x ∷ xs)
cons-LineResult x xs none miss h = ground (arith, miss, h)
cons-LineResult x xs (some n) miss (front, e, clear) =
    (x ∷ front, ap (λ zs. x ∷ zs) e, ground (arith, miss, clear))

line_len-LineResult : (xs : List ℕ) → LineResult (line_len xs) xs
unfolding line_len
line_len-LineResult [] = refl
line_len-LineResult (x ∷ xs) = elim (Bool-cases (x == newline)) [
  | inl hit ↦ rw hit ([], ap (λ z. z ∷ []) (ground (arith, hit)), refl)
  | inr miss ↦ rw miss (cons-LineResult x xs (line_len xs) miss (line_len-LineResult xs))
]

scan-lt : (xs : List ℕ) (i k : ℕ) → scan xs i ≡ some k → k < i + length xs
unfolding scan
scan-lt [] i k e = cc
scan-lt (x ∷ xs) i k e = ground (arith, scan-lt xs (i + 1) k)

shift-zero : (o : Option ℕ) → shift 0 o ≡ o
unfolding shift
shift-zero none = refl
shift-zero (some k) = ap some (omega arith)

line_len-scan : (xs : List ℕ) → line_len xs ≡ up (scan xs 0)
line_len-scan xs = sym (scan-line_len xs 0 ∙ shift-zero (line_len xs))

-- The two searches of `vk_vectoring_tx_line_len` put together.
two_searches :
    (a b : Option ℕ) (n : ℕ)
    → n < 2 ^ 63
    → ((k : ℕ) → b ≡ some k → k < 2 ^ 63)
    → elim a [
      | some k ↦ some (k + 1)
      | none ↦ elim b [ some k ↦ some (add_size (add_size n k) 1) | none ↦ none ]
    ]
      ≡ or_else (up a) (shift n (up b))
unfolding or_else shift
two_searches (some k) b n h small = ap some (omega arith)
two_searches none none n h small = refl
two_searches none (some k) n h small = ap some (omega (arith, small k refl))

module _ {r : Vectoring} (v : IsValid r) where
  abbrev front : List ℕ
  front = copy_out r.mem r.vector_tx.first.iov_base r.vector_tx.first.iov_len

  abbrev back : List ℕ
  back = copy_out r.mem r.vector_tx.second.iov_base r.vector_tx.second.iov_len

  parts :
      (request r.vector_tx r.tx_len ≡ (r.vector_tx.first.iov_len, r.vector_tx.second.iov_len))
      × (r.vector_tx.first.iov_base ≡ at r.tx_cursor)
      × (r.vector_tx.first.iov_len ≤ r.tx_len)
      × (r.vector_tx.second.iov_len ≤ r.tx_len)
  parts =
      subst
        (λ (vs : Vectors).
          (request vs r.tx_len ≡ (vs.first.iov_len, vs.second.iov_len))
          × (vs.first.iov_base ≡ at r.tx_cursor)
          × (vs.first.iov_len ≤ r.tx_len)
          × (vs.second.iov_len ≤ r.tx_len))
        (sym v.synced_tx) (sync_parts r.buf_len r.tx_cursor r.tx_len v.cursor_in v.len_in v.small)

  contents-parts : front ++ back ≡ contents r
  unfolding recv_bytes gather
  contents-parts =
      ap (gather r.mem r.vector_tx) (sym parts.0)
      ∙ recv_bytes-take r.tx_len v
      ∙ take-all r.tx_len (contents r) (sym (length-contents v))

  length-copy_out : (b : Base) (n : ℕ) → length (copy_out r.mem b n) ≤ n
  unfolding copy_out
  length-copy_out (at off) n = omega (arith, length-tabulate r.mem off n)
  length-copy_out literal n = omega arith

  length-front : length front ≡ r.vector_tx.first.iov_len
  unfolding copy_out
  length-front =
      ap (λ b. length (copy_out r.mem b r.vector_tx.first.iov_len)) parts.1
      ∙ length-tabulate r.mem r.tx_cursor r.vector_tx.first.iov_len

  tx_line_len-line_len : (widths : List ℕ) → tx_line_len widths r ≡ line_len (contents r)
  unfolding tx_line_len
  tx_line_len-line_len widths =
      ap₂
        (λ a b. elim a [
          | some k ↦ some (k + 1)
          | none ↦ elim b [
            | some k ↦ some (add_size (add_size r.vector_tx.first.iov_len k) 1)
            | none ↦ none
          ]
        ])
        (find_newline-scan widths front) (find_newline-scan widths back)
      ∙ two_searches (scan front 0) (scan back 0) r.vector_tx.first.iov_len
          (omega (arith, v.small, v.len_in, parts.2))
          (λ k e. omega (
            arith,
            scan-lt back 0 k e,
            length-copy_out r.vector_tx.second.iov_base r.vector_tx.second.iov_len,
            parts.3,
            v.len_in,
            v.small,
          ))
      ∙ ap₂ or_else (sym (line_len-scan front))
          (ap₂ shift (sym length-front) (sym (line_len-scan back)))
      ∙ sym (line_len-append front back)
      ∙ ap line_len contents-parts

  -- `vk_vectoring_tx_line_len` gives the length of the first line of the ring's contents with its
  -- newline, or tells that they hold no newline, whatever vector widths the build uses and also
  -- where the line goes round the end of the buffer.
  pub tx_line_len_lem : (widths : List ℕ) → LineResult (tx_line_len widths r) (contents r)
  tx_line_len_lem widths = rw (tx_line_len-line_len widths) (line_len-LineResult (contents r))
