-- ===== src/WrapGuard.antt =====
-- vk_wrapguard.c: arithmetic on `size_t` that fails with ERANGE instead of wrapping, and the
-- rounding of a size up to whole pages. `pagesize` stands for what `sysconf` reports.
pub mod Laws
use mnvkd.Base.{
  ℕ, ◌+◌, ◌*◌, ◌/◌, ◌^◌, ◌-◌, Bool, true, false, ◌&&◌, ◌||◌, ltb, leb, if◌then◌else◌, add_size,
  mul_size, size_mod, erange, Checked, ok, fail, ◌>>=◌,
}

-- `1UL << (sizeof(size_t) * 4)`
abbrev pub mul_no_overflow : ℕ
mul_no_overflow = 2 ^ 32

-- The `int` results 0 and -1 are `ok` and `fail`.
unfoldable pub wrapguard_mult : ℕ → ℕ → Checked (Unit {0})
wrapguard_mult a b =
    if (leb mul_no_overflow a || leb mul_no_overflow b) && (ltb 0 a && ltb ((size_mod - 1) / a) b)
    then fail erange
    else ok tt

unfoldable pub wrapguard_add : ℕ → ℕ → Checked (Unit {0})
wrapguard_add a b = if ltb (add_size a b) a || ltb (add_size a b) b then fail erange else ok tt

unfoldable pub safe_mult : ℕ → ℕ → Checked ℕ
safe_mult a b = wrapguard_mult a b >>= λ _. ok (mul_size a b)

unfoldable pub safe_add : ℕ → ℕ → Checked ℕ
safe_add a b = wrapguard_add a b >>= λ _. ok (add_size a b)

-- The pages that hold `len` bytes: the quotient, and one more if that falls short.
unfoldable pub page_count : ℕ → ℕ → ℕ
page_count pagesize len =
    let pagelen = len / pagesize in
    if ltb (mul_size pagelen pagesize) len then add_size pagelen 1 else pagelen

unfoldable pub safe_pagelen : ℕ → ℕ → ℕ → Checked ℕ
safe_pagelen pagesize nmemb count = safe_mult nmemb count >>= λ len. ok (page_count pagesize len)

unfoldable pub safe_alignedlen : ℕ → ℕ → ℕ → Checked ℕ
safe_alignedlen pagesize nmemb count =
    safe_pagelen pagesize nmemb count >>= λ pagelen. safe_mult pagelen pagesize

abbrev pub hugepagesize : ℕ
hugepagesize = 2 * 1024 * 1024

unfoldable pub safe_hugepagelen : ℕ → ℕ → Checked ℕ
safe_hugepagelen nmemb count = safe_mult nmemb count >>= λ len. ok (page_count hugepagesize len)

unfoldable pub safe_hugealignedlen : ℕ → ℕ → Checked ℕ
safe_hugealignedlen nmemb count =
    safe_hugepagelen nmemb count >>= λ pagelen. safe_mult pagelen hugepagesize
