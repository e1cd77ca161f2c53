-- ===== src/Stack.antt =====
-- vk_stack.c: the bump allocator of a micro-heap. Every push ends with a word that holds the length
-- of its frame, just below the cursor, and a pop reads it. Addresses are numbers; `Words` is the
-- memory as the `size_t` at each address. `pagesize` is `vk_pagesize()`.
pub mod Frames
pub mod Links
use mnvkd.Base.{
  ℕ, ◌+◌, ◌-◌, ◌*◌, ltb, leb, ◌==◌, if◌then◌else◌, add_size, sub_size, mul_size, Checked, ok, fail,
  ◌>>=◌, erange, enoent, einval, enomem,
}
use mnvkd.WrapGuard.{safe_mult, safe_add, page_count, safe_pagelen, safe_alignedlen}

abbrev pub Words : Type 0
Words = ℕ → ℕ

abbrev pub put_word : Words → ℕ → ℕ → Words
put_word w a x = λ i. if i == a then x else w i

-- `sizeof(size_t)`
abbrev pub word_size : ℕ
word_size = 8

pub record Stack : Type 0 where
  pub addr_start : ℕ
  pub addr_stop : ℕ
  pub addr_cursor : ℕ

-- `vk_stack_pagelen`: the pages for the object and the length of its frame
unfoldable pub stack_pagelen : ℕ → ℕ → ℕ → Checked ℕ
stack_pagelen pagesize nmemb count = safe_mult nmemb count >>= λ size.
    safe_add size word_size >>= λ len. ok (page_count pagesize len)

-- `vk_stack_alignedlen`, which does not call `vk_stack_pagelen`
unfoldable pub stack_alignedlen : ℕ → ℕ → ℕ → Checked ℕ
stack_alignedlen pagesize nmemb count =
    safe_pagelen pagesize nmemb count >>= λ pagelen. safe_mult pagelen pagesize

unfoldable pub stack_init : ℕ → ℕ → Stack
stack_init addr len = record {
  addr_start = addr;
  addr_stop = add_size addr len;
  addr_cursor = addr;
}

-- What a push leaves: the address of the object, the memory and the stack.
pub record Pushed : Type 0 where
  pub addr : ℕ
  pub words : Words
  pub stack : Stack

unfoldable pub push : ℕ → Words → Stack → ℕ → ℕ → Checked Pushed
push pagesize w s nmemb count = safe_alignedlen pagesize nmemb count >>= λ len.
    let cursor = add_size s.addr_cursor len in
    if leb cursor s.addr_stop
    then ok (record {
      addr = s.addr_cursor;
      words = put_word w (sub_size cursor word_size) len;
      stack = record s { addr_cursor = cursor };
    })
    else fail enomem

unfoldable pub pop : Words → Stack → Checked Stack
pop w s =
    let len_ptr = sub_size s.addr_cursor word_size in
    if leb s.addr_cursor s.addr_start
    then fail erange
    else (if ltb len_ptr s.addr_start
        then fail enoent
        else (if leb s.addr_stop len_ptr
            then fail einval
            else ok (record s { addr_cursor = sub_size s.addr_cursor (w len_ptr) })))

unfoldable pub get_free : Stack → ℕ
get_free s = sub_size s.addr_stop s.addr_cursor

unfoldable pub get_length : Stack → ℕ
get_length s = sub_size s.addr_stop s.addr_start

-- The new stack beside what the push leaves.
unfoldable pub push_stack : ℕ → Words → Stack → ℕ → ℕ → Checked (Stack × Pushed)
push_stack pagesize w s nmemb count =
    push pagesize w s nmemb count >>= λ p. ok (stack_init p.addr (mul_size nmemb count), p)

unfoldable pub push_stack_pages : ℕ → Words → Stack → ℕ → Checked (Stack × Pushed)
push_stack_pages pagesize w s pages = push_stack pagesize w s pages pagesize
