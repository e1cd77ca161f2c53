-- ===== src/Huge.antt =====
-- vk_huge.c, vk_huge.h and vk_huge_s.h: whether a mapping is worth trying with huge pages, on a system
-- that has them. A time `t` is what `now_ns` gives where it is called, `flags` is what the system's
-- headers have for such a mapping, and `meminfo` is the lines that `fgets` reads of /proc/meminfo, or
-- none where it cannot be opened.
pub mod Laws
use mnvkd.Base.{
  ℕ, ◌+◌, ◌*◌, ◌/◌, ◌%◌, ◌-◌, ◌^◌, Bool, true, false, not, ◌&&◌, ◌||◌, ltb, leb, ◌==◌,
  if◌then◌else◌, min, add_size, sub_size, Option, some, none, List, [], ◌∷◌, codes, Checked, ok,
  fail, ◌>>=◌, einval,
}
use mnvkd.Stream.{digits_value, skip_spaces}
use mnvkd.WrapGuard.{safe_mult, safe_add}

-- `enum vk_huge_mode`
pub data Mode : Type 0 where
  never : Mode
  auto : Mode
  always : Mode

-- `struct vk_huge`
pub record Huge : Type 0 where
  pub mode : Mode
  pub huge_page_bytes : ℕ
  pub free_pages_cached : ℕ
  pub last_refresh_ns : ℕ
  pub last_fail_ns : ℕ
  pub refresh_cooldown_ns : ℕ
  pub fail_cooldown_ns : ℕ
  pub flags : ℕ

abbrev pub default_page : ℕ
default_page = 2 * 1024 * 1024

-- `now_ns` of the seconds and nanoseconds of the clock.
unfoldable pub now_ns : ℕ → ℕ → ℕ
now_ns sec nsec = (sec * 10 ^ 9 + nsec) % 2 ^ 64

unfoldable pub huge_init : ℕ → Huge
huge_init flags = record {
  mode = auto;
  huge_page_bytes = default_page;
  free_pages_cached = 0;
  last_refresh_ns = 0;
  last_fail_ns = 0;
  refresh_cooldown_ns = 1000 * 1000 * 1000;
  fail_cooldown_ns = 2000 * 1000 * 1000;
  flags = flags;
}

abbrev pub set_mode : Huge → Mode → Huge
set_mode st mode = record st { mode = mode }

-- What stands behind a prefix of a line.
abbrev pub after_prefix : List ℕ → List ℕ → Option (List ℕ)
after_prefix [] line = some line
after_prefix (c ∷ s) [] = none
after_prefix (c ∷ s) (x ∷ line) = if c == x then after_prefix s line else none

abbrev pub skip_blanks : List ℕ → List ℕ
skip_blanks [] = []
skip_blanks (c ∷ s) = if c == 32 || c == 9 then skip_blanks s else c ∷ s

-- `strtoul(s, NULL, 10)`
abbrev pub unsigned_value : List ℕ → ℕ
unsigned_value [] = 0
unsigned_value (c ∷ s) =
    if c == b'-'
    then (if ltb (digits_value 0 s) (2 ^ 64)
        then (2 ^ 64 - digits_value 0 s) % 2 ^ 64
        else 2 ^ 64 - 1)
    else min (digits_value 0 (if c == b'+' then s else c ∷ s)) (2 ^ 64 - 1)

unfoldable pub strtoul : List ℕ → ℕ
unfolding digits_value skip_spaces
strtoul s = unsigned_value (skip_spaces s)

abbrev pub set_free : ℕ → ℕ → Option (List ℕ) → ℕ × ℕ
set_free huge_kb free none = (huge_kb, free)
set_free huge_kb free (some s) =
    if free == 0 then (huge_kb, strtoul (skip_blanks s)) else (huge_kb, free)

-- A line, by what stands behind `Hugepagesize:` and behind `HugePages_Free:` in it.
abbrev pub set_size : ℕ → ℕ → Option (List ℕ) → Option (List ℕ) → ℕ × ℕ
set_size huge_kb free none rest = set_free huge_kb free rest
set_size huge_kb free (some s) rest =
    if huge_kb == 0 then (strtoul (skip_blanks s), free) else set_free huge_kb free rest

-- The loop over the lines.
unfoldable pub read_lines : ℕ → ℕ → List (List ℕ) → ℕ × ℕ
unfolding strtoul
read_lines huge_kb free [] = (huge_kb, free)
read_lines huge_kb free (line ∷ meminfo) =
    let (huge_kb', free') =
      set_size huge_kb free (after_prefix (codes "Hugepagesize:") line)
        (after_prefix (codes "HugePages_Free:") line) in
    read_lines huge_kb' free' meminfo

unfoldable pub refresh_from_proc : Huge → Option (List (List ℕ)) → Huge
unfolding read_lines
refresh_from_proc st none = st
refresh_from_proc st (some meminfo) =
    let (huge_kb, free) = read_lines 0 0 meminfo in
    record st {
      huge_page_bytes = if ltb 0 huge_kb then huge_kb * 1024 % 2 ^ 64 else st.huge_page_bytes;
      free_pages_cached = if ltb 0 free then free else 0;
    }

unfoldable pub refresh : ℕ → Option (List (List ℕ)) → Huge → Huge
unfolding refresh_from_proc
refresh t meminfo st =
    if ltb (sub_size t st.last_refresh_ns) st.refresh_cooldown_ns
    then st
    else record (refresh_from_proc st meminfo) { last_refresh_ns = t }

unfoldable pub page_bytes : Huge → ℕ
page_bytes st = if not (st.huge_page_bytes == 0) then st.huge_page_bytes else default_page

-- `(len_bytes + page - 1) / page`
abbrev pub needed : ℕ → ℕ → ℕ
needed len page = sub_size (add_size len page) 1 / page

-- The end of `vk_huge_should_try`, after the refresh.
abbrev pub compare_budget : ℕ → Huge → Bool × Huge
compare_budget len st =
    let page = if not (st.huge_page_bytes == 0) then st.huge_page_bytes else default_page in
    (leb (needed len page) st.free_pages_cached, st)

abbrev pub try_mode : Mode → ℕ → Option (List (List ℕ)) → Huge → ℕ → Bool × Huge
try_mode never t meminfo st len = (false, st)
try_mode always t meminfo st len = (true, st)
try_mode auto t meminfo st len = compare_budget len (refresh t meminfo st)

abbrev pub is_never : Mode → Bool
is_never never = true
is_never auto = false
is_never always = false

-- `t` and `t'` are the times of the two readings of the clock.
unfoldable pub should_try : ℕ → ℕ → Option (List (List ℕ)) → Huge → ℕ → Bool × Huge
unfolding refresh
should_try t t' meminfo st len =
    if is_never st.mode
    then (false, st)
    else if st.flags == 0
    then (false, st)
    else if not (st.last_fail_ns == 0) && ltb (sub_size t st.last_fail_ns) st.fail_cooldown_ns
    then (false, st)
    else try_mode st.mode t' meminfo st len

unfoldable pub on_success : ℕ → Huge → Huge
on_success len st =
    let used = needed len st.huge_page_bytes in
    record st {
      last_fail_ns = 0;
      free_pages_cached =
          if ltb 0 st.free_pages_cached && ltb 0 st.huge_page_bytes
          then (if leb used st.free_pages_cached then st.free_pages_cached - used else 0)
          else st.free_pages_cached;
    }

unfoldable pub on_failure : ℕ → Huge → Huge
on_failure t st = record st { last_fail_ns = t; free_pages_cached = 0 }

abbrev pub rounded_pages : ℕ → ℕ → Checked ℕ
rounded_pages page len = if not (len % page == 0) then safe_add (len / page) 1 else ok (len / page)

unfoldable pub aligned_len : Huge → ℕ → ℕ → Checked ℕ
unfolding page_bytes safe_mult safe_add
aligned_len st nmemb count =
    let page = page_bytes st in
    if page == 0
    then fail einval
    else safe_mult nmemb count >>= λ len. rounded_pages page len >>= λ pages. safe_mult pages page
