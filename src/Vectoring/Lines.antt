-- ===== src/Vectoring/Lines.antt =====
-- `vk_vectoring_find_newline`, `vk_vectoring_tx_line_len` and `vk_vectoring_tx_line_request`.
-- The bytes that a pointer and a length name are a list. `widths` are the vector widths that the
-- build compiles in, in their order: 32 and 16 with AVX2, 16 with SSE2 or NEON, none without SIMD.
pub mod Laws
pub mod LineLen
use mnvkd.Base.{
  ℕ, zero, suc, ◌+◌, Bool, true, false, Option, none, some, List, [], ◌∷◌, leb, ◌==◌, if◌then◌else◌,
  length, take, drop, add_size,
}
use mnvkd.Vectoring.State.{Vectoring}
use mnvkd.Vectoring.Transfer.{copy_out}

abbrev pub newline : ℕ
newline = b'\n'

-- `while (len--) { if (*buf == '\n') return buf; buf++; }`, `i` bytes behind the start
unfoldable pub scan : List ℕ → ℕ → Option ℕ
scan [] i = none
scan (b ∷ bs) i = if b == newline then some i else scan bs (i + 1)

-- The comparison of a block with newlines, as its bits, and the position of the lowest one set.
unfoldable pub compare_mask : List ℕ → List Bool
compare_mask [] = []
compare_mask (b ∷ bs) = (b == newline) ∷ compare_mask bs

unfoldable pub lowest_set : List Bool → Option ℕ
lowest_set [] = none
lowest_set (true ∷ bits) = some 0
lowest_set (false ∷ bits) = elim (lowest_set bits) [ none ↦ none | some k ↦ some (suc k) ]

-- How a loop over blocks ends: at a newline, or at the bytes that are too few for a block.
pub data Blocks : Type 0 where
  found : ℕ → Blocks
  rest : List ℕ → ℕ → Blocks

-- `while (len >= width) { … buf += width; len -= width; }` on fuel
unfoldable pub block_loop : ℕ → ℕ → List ℕ → ℕ → Blocks
block_loop width zero bs i = rest bs i
block_loop width (suc fuel) bs i = elim (leb width (length bs)) [
  | true ↦ elim (lowest_set (compare_mask (take width bs))) [
    | some k ↦ found (i + k)
    | none ↦ block_loop width fuel (drop width bs) (i + width)
  ]
  | false ↦ rest bs i
]

unfoldable pub find_from : List ℕ → List ℕ → ℕ → Option ℕ
find_from [] bs i = scan bs i
find_from (width ∷ widths) bs i = elim (block_loop width (length bs) bs i) [
  | found k ↦ some k
  | rest cs j ↦ find_from widths cs j
]

unfoldable pub find_newline : List ℕ → List ℕ → Option ℕ
unfolding find_from
find_newline widths bs = find_from widths bs 0

-- The length of the first line with its newline: the C function returns whether there is one.
unfoldable pub tx_line_len : List ℕ → Vectoring → Option ℕ
tx_line_len widths r =
    elim (find_newline widths
      (copy_out r.mem r.vector_tx.first.iov_base r.vector_tx.first.iov_len)) [
        | some k ↦ some (k + 1)
        | none ↦
            elim (find_newline widths
              (copy_out r.mem r.vector_tx.second.iov_base r.vector_tx.second.iov_len)) [
                | some k ↦ some (add_size (add_size r.vector_tx.first.iov_len k) 1)
                | none ↦ none
              ]
      ]

unfoldable pub tx_line_request : List ℕ → Vectoring → ℕ → ℕ
tx_line_request widths r len = elim (tx_line_len widths r) [ some n ↦ n | none ↦ len ]
