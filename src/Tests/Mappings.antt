-- ===== src/Tests/Mappings.antt =====
-- A mapping of 5,000,000 bytes where three huge pages are free.
use mnvkd.Base.{
  ℕ, ◌*◌, ◌≤◌, ◌+◌, true, false, List, [], ◌∷◌, codes, Option, some, ◌≡◌, refl, arith, size_mod,
}
use mnvkd.Stream.{digits_value, skip_spaces}
use mnvkd.WrapGuard.{safe_alignedlen}
use mnvkd.Huge.{
  auto, Huge, strtoul, read_lines, refresh_from_proc, refresh, page_bytes, should_try, on_failure,
  aligned_len,
}
use mnvkd.Huge.Laws.{aligned_len-safe_alignedlen, should_try-covers}

abbrev meminfo : Option (List (List ℕ))
meminfo = some (codes "Hugepagesize:    2048 kB\n" ∷ codes "HugePages_Free:        3\n" ∷ [])

abbrev huge : Huge
huge = record {
  mode = auto;
  huge_page_bytes = 2097152;
  free_pages_cached = 0;
  last_refresh_ns = 0;
  last_fail_ns = 0;
  refresh_cooldown_ns = 1000000000;
  fail_cooldown_ns = 2000000000;
  flags = 0x40000;
}

abbrev now : ℕ
now = 5000000000

tried :
    should_try now now meminfo huge 5000000
    ≡ (true, record huge { free_pages_cached = 3; last_refresh_ns = now })
unfolding should_try refresh refresh_from_proc read_lines strtoul digits_value skip_spaces
tried = refl

was_tried : (should_try now now meminfo huge 5000000).0 ≡ true
was_tried = rw tried refl

room : 5000000 + page_bytes (should_try now now meminfo huge 5000000).1 ≤ size_mod
unfolding page_bytes
room = rw tried (omega arith)

should_try-covers_example :
    5000000
    ≤ (should_try now now meminfo huge 5000000).1.free_pages_cached
      * page_bytes (should_try now now meminfo huge 5000000).1
should_try-covers_example = should_try-covers now now meminfo huge 5000000 refl was_tried room

aligned_len-safe_alignedlen_example :
    aligned_len huge 3 1000000 ≡ safe_alignedlen (page_bytes huge) 3 1000000
aligned_len-safe_alignedlen_example = aligned_len-safe_alignedlen huge 3 1000000

-- Half a second after a failure.
not_tried : (should_try now now meminfo (on_failure 4500000000 huge) 5000000).0 ≡ false
unfolding should_try on_failure
not_tried = refl
