-- ===== src/Tests/Sizes.antt =====
-- The guards of vk_wrapguard.c at pages of 4096 bytes.
use mnvkd.Base.{◌+◌, ◌*◌, ◌%◌, ◌^◌, ◌≤◌, ◌<◌, ◌≡◌, refl, arith, ok, fail, erange, size_mod}
use mnvkd.WrapGuard.{
  wrapguard_mult, safe_mult, page_count, safe_pagelen, safe_alignedlen, safe_hugepagelen,
  safe_hugealignedlen,
}
use mnvkd.WrapGuard.Laws.{safe_alignedlen_rounds_up}

alignedlen_one : safe_alignedlen 4096 3 2000 ≡ ok 8192
unfolding safe_alignedlen safe_pagelen safe_mult wrapguard_mult page_count
alignedlen_one = refl

hugealignedlen_one : safe_hugealignedlen 3 2000000 ≡ ok 6291456
unfolding safe_hugealignedlen safe_hugepagelen safe_mult wrapguard_mult page_count
hugealignedlen_one = refl

mult_overflow : safe_mult (2 ^ 33) (2 ^ 31) ≡ fail erange
unfolding safe_mult wrapguard_mult
mult_overflow = refl

safe_alignedlen_rounds_up_example :
    (3 * 2000 ≤ 8192) × (8192 < 3 * 2000 + 4096) × (8192 % 4096 ≡ 0) × (8192 < size_mod)
safe_alignedlen_rounds_up_example =
    safe_alignedlen_rounds_up 4096 3 2000 (omega arith) (omega arith) (omega arith) (omega arith)
      alignedlen_one
