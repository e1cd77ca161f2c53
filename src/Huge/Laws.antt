-- ===== src/Huge/Laws.antt =====
-- vk_huge.c: rounding up to huge pages, and what a try promises.
use mnvkd.Base.{
  ℕ, ◌+◌, ◌*◌, ◌/◌, ◌%◌, ◌-◌, ◌<◌, ◌≤◌, Bool, true, false, not, ◌==◌, if◌then◌else◌, if_true,
  if_false, add_size, sub_size, size_mod, Option, List, Checked, ok, fail, ◌>>=◌, ◌≡◌, refl, sym,
  ap, subst, ◌∙◌, arith, Bool-cases, inl, inr,
}
use mnvkd.WrapGuard.{safe_mult, page_count, safe_pagelen, safe_alignedlen, wrapguard_mult}
use mnvkd.WrapGuard.Laws.{page_count-exact, safe_add_lem, quotient_bounds}
use mnvkd.Huge.{
  auto, Huge, refresh, page_bytes, compare_budget, try_mode, is_never, should_try, rounded_pages,
  aligned_len,
}

parts : (page len : ℕ) → 0 < page → (len / page) * page + len % page ≡ len
parts page len p = grind arith

below : (page len q : ℕ) → q * page < len → 0 < page → q < len
below page len q h p = grind arith

rounded_pages-page_count :
    (page len : ℕ) → 0 < page → len < size_mod → rounded_pages page len ≡ ok (page_count page len)
rounded_pages-page_count page len p q =
    rw (page_count-exact page len p q) (elim (Bool-cases (len % page == 0)) [
      | inl e ↦ ground (arith, e, parts page len p)
      | inr e ↦
          let more : (len / page) * page < len = ground (arith, e, parts page len p) in
          let few = below page len (len / page) more p in
          if_true (not (len % page == 0)) _ _ (ground (arith, e))
          ∙ (safe_add_lem (len / page) 1 (omega arith) (omega arith) ∙ ground (arith, more, few))
    ])

-- Both roundings, whatever comes after them.
agree :
    (page : ℕ) (size : Checked ℕ) (next : ℕ → Checked ℕ)
    → 0 < page
    → ((len : ℕ) → size ≡ ok len → len < size_mod)
    → (size >>= λ len. rounded_pages page len >>= next)
      ≡ ((size >>= λ len. ok (page_count page len)) >>= next)
agree page (fail e) next p fits = refl
agree page (ok len) next p fits =
    ap (λ z. z >>= next) (rounded_pages-page_count page len p (fits len refl))

safe_mult_fits : (a b len : ℕ) → safe_mult a b ≡ ok len → len < size_mod
unfolding safe_mult wrapguard_mult
safe_mult_fits a b len h = ground (arith, h)

page_bytes_positive : (st : Huge) → 0 < page_bytes st
unfolding page_bytes
page_bytes_positive st = ground arith

-- Rounding up by the size of a huge page that is tracked gives what vk_safe_alignedlen gives for that
-- page size, errors included: by a quotient and a remainder instead of a product that wraps.
pub aligned_len-safe_alignedlen :
    (st : Huge) (nmemb count : ℕ)
    → aligned_len st nmemb count ≡ safe_alignedlen (page_bytes st) nmemb count
unfolding aligned_len safe_alignedlen safe_pagelen
aligned_len-safe_alignedlen st nmemb count =
    let page = page_bytes st in
    if_false (page == 0) _ _ (ground (arith, page_bytes_positive st))
    ∙ agree page (safe_mult nmemb count) (λ pages. safe_mult pages page) (page_bytes_positive st)
        (safe_mult_fits nmemb count)

-- A try is made only where the free pages hold the mapping.
abbrev Covers : ℕ → Bool × Huge → Type 0
Covers len r =
    r.0 ≡ true → len + page_bytes r.1 ≤ size_mod → len ≤ r.1.free_pages_cached * page_bytes r.1

if-Covers :
    (len : ℕ) (a : Bool) (st : Huge) (y : Bool × Huge)
    → Covers len y
    → Covers len (if a then (false, st) else y)
if-Covers len true st y h e room = absurd (cc e)
if-Covers len false st y h e room = h e room

less_one : (n : ℕ) → 0 < n → n ≤ size_mod → sub_size (n % size_mod) 1 ≡ n - 1
less_one n p h = omega arith

pages_cover : (page len free : ℕ) → 0 < page → (len + page - 1) / page ≤ free → len ≤ free * page
pages_cover page len free p h =
    let (low, high) = quotient_bounds page (len + page - 1) p in
    let more : (len + page - 1) / page * page ≤ free * page = grind arith in
    omega (arith, low, high, more)

budget-Covers : (len : ℕ) (st : Huge) → Covers len (compare_budget len st)
unfolding page_bytes
budget-Covers len st e room =
    let page = page_bytes st in
    let positive = page_bytes_positive st in
    let exact : sub_size (add_size len page) 1 ≡ len + page - 1 =
      less_one (len + page) (omega (arith, positive)) room in
    pages_cover page len st.free_pages_cached positive (ground (arith, e, ap (λ n. n / page) exact))

-- Where it is left to the tracker, a mapping is tried with huge pages only if the free ones that it
-- has counted, after the refresh that comes first, hold all its bytes: for a mapping whose size and
-- one page more fit a `size_t`.
pub should_try-covers :
    (t t' : ℕ) (meminfo : Option (List (List ℕ))) (st : Huge) (len : ℕ)
    → st.mode ≡ auto
    → (should_try t t' meminfo st len).0 ≡ true
    → len + page_bytes (should_try t t' meminfo st len).1 ≤ size_mod
    → len
      ≤ (should_try t t' meminfo st len).1.free_pages_cached
        * page_bytes (should_try t t' meminfo st len).1
unfolding should_try
should_try-covers t t' meminfo st len h = if-Covers len (is_never st.mode) st _ (
    if-Covers len (st.flags == 0) st _ (
      if-Covers len _ st (try_mode st.mode t' meminfo st len) (
        subst (λ m. Covers len (try_mode m t' meminfo st len)) (sym h)
          (budget-Covers len (refresh t' meminfo st)))))
