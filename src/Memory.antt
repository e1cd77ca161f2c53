-- ===== src/Memory.antt =====
-- C memory as a function from offsets to bytes, and the copies that `memcpy` makes.
use mnvkd.Base.{
  ℕ, zero, suc, ◌+◌, ◌<◌, ◌≤◌, ◌≡◌, refl, ap, ap₂, List, [], ◌∷◌, ◌++◌, arith, ◌==◌, if◌then◌else◌,
  length, ◌⊎◌, subst, ◌∙◌,
}

abbrev pub Mem : Type 0
Mem = ℕ → ℕ

-- `f i`, `f (i + 1)`, …, `n` items
unfoldable pub tabulate : (ℕ → ℕ) → ℕ → ℕ → List ℕ
tabulate f i zero = []
tabulate f i (suc n) = f i ∷ tabulate f (i + 1) n

-- The `n` bytes from offset `off` on, as `memcpy` reads them.
abbrev pub load : Mem → ℕ → ℕ → List ℕ
load m off n = tabulate m off n

-- The memory after the bytes have been copied to offset `off`.
unfoldable pub store : Mem → ℕ → List ℕ → Mem
store m off [] = m
store m off (x ∷ xs) = λ i. if i == off then x else store m (off + 1) xs i

pub length-tabulate : (f : ℕ → ℕ) (i n : ℕ) → length (tabulate f i n) ≡ n
unfolding tabulate
length-tabulate f i zero = refl
length-tabulate f i (suc n) = ap suc (length-tabulate f (i + 1) n)

pub tabulate-add :
    (f : ℕ → ℕ) (i a b : ℕ) → tabulate f i (a + b) ≡ tabulate f i a ++ tabulate f (i + a) b
unfolding tabulate
tabulate-add f i zero b = ap₂ (λ k n. tabulate f k n) (omega arith) (omega arith)
tabulate-add f i (suc a) b =
    let e : suc a + b ≡ suc (a + b) = omega arith in
    let e' : i + 1 + a ≡ i + suc a = omega arith in
    rw e (
      ap (λ zs. f i ∷ zs)
        (subst (λ k. tabulate f (i + 1) (a + b) ≡ tabulate f (i + 1) a ++ tabulate f k b) e'
          (tabulate-add f (i + 1) a b)))

-- Two tables with the same entries are equal.
pub tabulate_ext :
    (f g : ℕ → ℕ) (i k n : ℕ)
    → ((j : ℕ) → j < n → f (i + j) ≡ g (k + j))
    → tabulate f i n ≡ tabulate g k n
unfolding tabulate
tabulate_ext f g i k zero same = refl
tabulate_ext f g i k (suc n) same = ap₂ ◌∷◌ head (
    tabulate_ext f g (i + 1) (k + 1) n λ j h.
      let e : i + 1 + j ≡ i + (j + 1) = omega arith in
      let e' : k + 1 + j ≡ k + (j + 1) = omega arith in rw (e, e') (same (j + 1) (omega arith)))
  where
    head : f i ≡ g k
    head =
        let e : i + 0 ≡ i = omega arith in
        let e' : k + 0 ≡ k = omega arith in
        subst (λ a. f a ≡ g k) e (subst (λ a. f (i + 0) ≡ g a) e' (same 0 (omega arith)))

-- A store changes nothing outside the bytes that it writes.
pub store_outside :
    (m : Mem) (off i : ℕ) (xs : List ℕ) → (i < off) ⊎ (off + length xs ≤ i) → store m off xs i ≡ m i
unfolding store
store_outside m off i [] out = refl
store_outside m off i (x ∷ xs) out = ground (arith, store_outside m (off + 1) i xs)

-- What has been stored is what is read back.
pub load-store : (m : Mem) (off : ℕ) (xs : List ℕ) → load (store m off xs) off (length xs) ≡ xs
unfolding store tabulate
load-store m off [] = refl
load-store m off (x ∷ xs) = ap₂ ◌∷◌ (ground arith) (
    tabulate_ext (store m off (x ∷ xs)) (store m (off + 1) xs) (off + 1) (off + 1) (length xs)
      (λ j h. ground arith)
    ∙ load-store m (off + 1) xs)
