-- ===== src/WrapGuard/Laws.antt =====
-- What the guards of vk_wrapguard.c reject, and which page counts they give.
use mnvkd.Base.{
  ℕ, ◌+◌, ◌*◌, ◌/◌, ◌%◌, ◌≤◌, ◌<◌, ◌^◌, ◌-◌, ◌≡◌, sym, ◌∙◌, ltb, if◌then◌else◌, arith, size_mod,
  erange, Checked, ok, fail,
}
use native.Mathlib.Nat.{mul-mod_left}
use mnvkd.WrapGuard.{
  wrapguard_mult, wrapguard_add, safe_mult, safe_add, page_count, safe_pagelen, safe_alignedlen,
}

-- The exact sum or product if it fits a `size_t`, and ERANGE otherwise.
abbrev pub exact : ℕ → Checked ℕ
exact n = if ltb n size_mod then ok n else fail erange

-- For two values of a `size_t`, the guarded sum is the exact sum where that fits a `size_t`, and
-- ERANGE otherwise.
pub safe_add_lem : (a b : ℕ) → a < size_mod → b < size_mod → safe_add a b ≡ exact (a + b)
unfolding safe_add wrapguard_add
safe_add_lem a b ha hb = ground arith

product_fits : (a b : ℕ) → a < 2 ^ 32 → b < 2 ^ 32 → a * b < 2 ^ 64
product_fits a b ha hb = grind arith

quotient_test : (m a b : ℕ) → 0 < a → (m / a < b → m < a * b) × (b ≤ m / a → a * b ≤ m)
quotient_test m a b h = (grind arith, grind arith)

-- For two values of a `size_t`, the guarded product is the exact product where that fits a
-- `size_t`, and ERANGE otherwise.
safe_mult_lem : (a b : ℕ) → a < size_mod → b < size_mod → safe_mult a b ≡ exact (a * b)
unfolding safe_mult wrapguard_mult
safe_mult_lem a b ha hb = ground (arith, product_fits a b, quotient_test (size_mod - 1) a b)

zero_product : (a b : ℕ) → ¬ (0 < a) → a * b ≡ 0
zero_product a b h = grind arith

pub quotient_bounds : (ps len : ℕ) → 0 < ps → (len / ps * ps ≤ len) × (len < len / ps * ps + ps)
quotient_bounds ps len h = (grind arith, grind arith)

quotient_le : (ps len : ℕ) → len / ps ≤ len
quotient_le ps len = grind arith

next_page : (ps q : ℕ) → (q + 1) * ps ≡ q * ps + ps
next_page ps q = grind arith

-- `++pagelen` cannot wrap: the full quotient is no less than `len` only for one-byte pages.
pub page_count-exact :
    (ps len : ℕ)
    → 0 < ps
    → len < size_mod
    → page_count ps len ≡ (if ltb (len / ps * ps) len then len / ps + 1 else len / ps)
unfolding page_count
page_count-exact ps len h hl =
    let q = len / ps in ground (arith, quotient_bounds ps len h, quotient_le ps len, below q)
  where
    below : (q : ℕ) → q * ps < len → q < len
    below q p = grind arith

-- The page count is the least that covers `len`.
pub page_count_lem :
    (ps len : ℕ)
    → 0 < ps
    → len < size_mod
    → (len ≤ page_count ps len * ps) × (page_count ps len * ps < len + ps)
page_count_lem ps len h hl =
    rw (page_count-exact ps len h hl)
      (ground (arith, quotient_bounds ps len h, next_page ps (len / ps)))

page_count-le : (ps len : ℕ) → 0 < ps → len < size_mod → page_count ps len ≤ len
page_count-le ps len h hl =
    rw (page_count-exact ps len h hl) (ground (arith, quotient_le ps len, below (len / ps)))
  where
    below : (q : ℕ) → q * ps < len → q < len
    below q p = grind arith

-- The size in whole pages, where neither product overflows.
pub safe_alignedlen_lem :
    (ps n c : ℕ)
    → 0 < ps
    → ps < size_mod
    → n < size_mod
    → c < size_mod
    → safe_alignedlen ps n c
      ≡ (if ltb (n * c) size_mod then exact (page_count ps (n * c) * ps) else fail erange)
unfolding safe_alignedlen safe_pagelen
safe_alignedlen_lem ps n c h hp hn hc =
    rw (safe_mult_lem n c hn hc)
      (ground (arith, page_count-le ps (n * c), safe_mult_lem (page_count ps (n * c)) ps))

-- What a successful call returns is the least whole number of pages that holds `n * c` bytes.
pub safe_alignedlen_rounds_up :
    (ps n c : ℕ) {len : ℕ}
    → 0 < ps
    → ps < size_mod
    → n < size_mod
    → c < size_mod
    → safe_alignedlen ps n c ≡ ok len
    → (n * c ≤ len) × (len < n * c + ps) × (len % ps ≡ 0) × (len < size_mod)
safe_alignedlen_rounds_up ps n c h hp hn hc e = ground (
  arith,
  sym (safe_alignedlen_lem ps n c h hp hn hc) ∙ e,
  page_count_lem ps (n * c) h,
  multiple (page_count ps (n * c)),
)
  where
    multiple : (q : ℕ) → (q * ps) % ps ≡ 0
    multiple q = mul-mod_left q ps

-- A request that leaves a page of room below the end of `size_t` is met.
pub safe_alignedlen_total :
    (ps n c : ℕ)
    → 0 < ps
    → ps < size_mod
    → n < size_mod
    → c < size_mod
    → n * c + ps ≤ size_mod
    → (len : ℕ) × (safe_alignedlen ps n c ≡ ok len)
safe_alignedlen_total ps n c h hp hn hc room = (
  page_count ps (n * c) * ps,
  rw (safe_alignedlen_lem ps n c h hp hn hc) (ground (arith, page_count_lem ps (n * c) h)),
)
