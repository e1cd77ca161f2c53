-- ===== src/Tests/Stacks.antt =====
-- A stack of four pages of 4096 bytes, with no frame and with one.
use mnvkd.Base.{◌*◌, ◌%◌, ◌≤◌, ◌≡◌, refl, arith, ok, [], ◌∷◌}
use mnvkd.WrapGuard.{safe_alignedlen, safe_pagelen, safe_mult, wrapguard_mult, page_count}
use mnvkd.Stack.{Words, Stack, push, pop}
use mnvkd.Stack.Frames.{IsStack, pushed, Request, push_refines}

abbrev blank : Words
blank = λ i. 0

abbrev base : Stack
base = record { addr_start = 8192; addr_stop = 24576; addr_cursor = 8192 }

base-IsStack : IsStack blank base []
base-IsStack = record {
  frames = refl;
  above = omega arith;
  below = omega arith;
  small = omega arith;
}

object_frame : safe_alignedlen 4096 3 2000 ≡ ok 8192
unfolding safe_alignedlen safe_pagelen safe_mult wrapguard_mult page_count
object_frame = refl

pages_frame : safe_alignedlen 4096 2 4096 ≡ ok (2 * 4096)
unfolding safe_alignedlen safe_pagelen safe_mult wrapguard_mult page_count
pages_frame = refl

object : Request base 4096 3 2000 8192
object = record {
  word = omega arith;
  nmemb = omega arith;
  count = omega arith;
  room = omega arith;
  some_bytes = omega arith;
  frame = object_frame;
}

pages : Request base 4096 2 4096 (2 * 4096)
pages = record {
  word = omega arith;
  nmemb = omega arith;
  count = omega arith;
  room = omega arith;
  some_bytes = omega arith;
  frame = pages_frame;
}

push_refines_example :
    (push 4096 blank base 3 2000 ≡ ok (pushed blank base 8192))
    × (3 * 2000 ≤ 8192)
    × (8192 % 4096 ≡ 0)
    × IsStack (pushed blank base 8192).words (pushed blank base 8192).stack (8192 ∷ [])
    × (pop (pushed blank base 8192).words (pushed blank base 8192).stack ≡ ok base)
push_refines_example = push_refines blank object base-IsStack (omega arith)
