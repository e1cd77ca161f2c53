-- ===== src/Vectoring/Lines/Laws.antt =====
-- The search for a line end finds the first newline of the ring, whatever the vector widths.
use mnvkd.Base.{
  ℕ, zero, suc, ◌+◌, ◌<◌, ◌≤◌, ◌≡◌, refl, sym, ◌∙◌, ap, Option, none, some, List, [], ◌∷◌, ◌++◌,
  leb, ◌==◌, length, take, drop, arith, Bool-cases, inl, inr, length-drop, length-take, ap₂,
}
use mnvkd.Vectoring.Lines.{
  newline, scan, compare_mask, lowest_set, Blocks, found, rest, block_loop, find_from, find_newline,
}

-- What a scan of the bytes behind `xs` gives, if there is no newline in `xs`.
unfoldable pub or_else : Option ℕ → Option ℕ → Option ℕ
or_else (some k) o = some k
or_else none o = o

pub scan-append :
    (xs ys : List ℕ) (i : ℕ) → scan (xs ++ ys) i ≡ or_else (scan xs i) (scan ys (i + length xs))
unfolding scan or_else
scan-append [] ys i = let e : i + 0 ≡ i = omega arith in rw e
scan-append (x ∷ xs) ys i =
    let e : i + 1 + length xs ≡ i + suc (length xs) = omega arith in
    elim (Bool-cases (x == newline)) [
      | inl hit ↦ rw hit
      | inr miss ↦ rw miss (rw (← e) (scan-append xs ys (i + 1)))
    ]

unfoldable pub shift : ℕ → Option ℕ → Option ℕ
shift i none = none
shift i (some k) = some (i + k)

-- The lowest bit of the comparison is where the scan stops.
pub scan-lowest_set : (bs : List ℕ) (i : ℕ) → scan bs i ≡ shift i (lowest_set (compare_mask bs))
unfolding scan lowest_set compare_mask shift
scan-lowest_set [] i = refl
scan-lowest_set (b ∷ bs) i = ground (arith, scan-lowest_set bs (i + 1))

take-drop {ℓ} : {A : Type ℓ} (n : ℕ) (xs : List A) → take n xs ++ drop n xs ≡ xs
take-drop zero xs = refl
take-drop (suc n) [] = refl
take-drop (suc n) (x ∷ xs) = ap (λ zs. x ∷ zs) (take-drop n xs)

-- what is still to be found when the loop over blocks ends
after : Blocks → Option ℕ
after (found k) = some k
after (rest bs i) = scan bs i

-- A scan over a block: where the block has no newline, the scan of the bytes behind it.
scan-block :
    (width : ℕ) (bs : List ℕ) (i : ℕ)
    → width ≤ length bs
    → scan bs i
      ≡ or_else
          (shift i (lowest_set (compare_mask (take width bs))))
          (scan (drop width bs) (i + width))
scan-block width bs i h =
    ap (λ zs. scan zs i) (sym (take-drop width bs))
    ∙ scan-append (take width bs) (drop width bs) i
    ∙ ap₂ or_else (scan-lowest_set (take width bs) i)
        (ap (λ k. scan (drop width bs) (i + k)) (length-take width bs h))

settle_block :
    (o : Option ℕ) (i : ℕ) (later : Blocks)
    → after (elim o [ some k ↦ found (i + k) | none ↦ later ]) ≡ or_else (shift i o) (after later)
unfolding after or_else shift
settle_block none i later = refl
settle_block (some k) i later = refl

block_loop-scan :
    (width fuel : ℕ) (bs : List ℕ) (i : ℕ) → after (block_loop width fuel bs i) ≡ scan bs i
unfolding block_loop after or_else shift
block_loop-scan width zero bs i = refl
block_loop-scan width (suc fuel) bs i = elim (Bool-cases (leb width (length bs))) [
  | inr short ↦ rw (short, after)
  | inl long ↦
      rw (long, after)
        (settle_block (lowest_set (compare_mask (take width bs))) i
            (block_loop width fuel (drop width bs) (i + width))
          ∙ ap (or_else (shift i (lowest_set (compare_mask (take width bs)))))
              (block_loop-scan width fuel (drop width bs) (i + width))
          ∙ sym (scan-block width bs i (ground arith)))
]

-- With a positive width, `length bs` rounds leave fewer bytes than a block.
pub block_loop_ends :
    (width fuel : ℕ) (bs : List ℕ) (i : ℕ) (cs : List ℕ) (j : ℕ)
    → 0 < width
    → length bs ≤ fuel
    → block_loop width fuel bs i ≡ rest cs j
    → length cs < width
unfolding block_loop
block_loop_ends width zero bs i cs j pos_width fuel e = ground arith
block_loop_ends width (suc fuel) bs i cs j pos_width enough e =
    ground
      (arith, length-drop width bs, block_loop_ends width fuel (drop width bs) (i + width) cs j)

find_from-scan : (widths bs : List ℕ) (i : ℕ) → find_from widths bs i ≡ scan bs i
unfolding find_from after
find_from-scan [] bs i = refl
find_from-scan (width ∷ widths) bs i =
    settle (find_from-scan widths) (block_loop width (length bs) bs i)
    ∙ block_loop-scan width (length bs) bs i
  where
    settle :
        ((cs : List ℕ) (j : ℕ) → find_from widths cs j ≡ scan cs j)
        → (b : Blocks) → elim b [ found k ↦ some k | rest cs j ↦ find_from widths cs j ] ≡ after b
    settle ih (found k) = refl
    settle ih (rest cs j) = ih cs j

-- Searching block by block with any vector widths finds what the search byte by byte finds.
pub find_newline-scan : (widths bs : List ℕ) → find_newline widths bs ≡ scan bs 0
unfolding find_newline
find_newline-scan widths bs = find_from-scan widths bs 0
