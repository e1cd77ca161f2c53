-- ===== src/Stack/Links.antt =====
-- Where the word with the length of a frame lies: in an object of whole pages, and over the word of
-- the frame below for an empty object.
use mnvkd.Base.{
  ℕ, ◌+◌, ◌-◌, ◌*◌, ◌≤◌, ◌<◌, ◌≡◌, refl, sym, ◌∙◌, ap, leb, add_size, sub_size, mul_size, size_mod,
  ok, List, ◌∷◌, arith, true,
}
use native.Mathlib.Nat.{mod-eq_of_lt}
use mnvkd.WrapGuard.{safe_alignedlen}
use mnvkd.WrapGuard.Laws.{safe_alignedlen_rounds_up, safe_alignedlen_total}
use mnvkd.Stack.{
  Words, put_word, word_size, Stack, Pushed, stack_init, push, pop, push_stack, push_stack_pages,
}
use mnvkd.Stack.Frames.{IsStack, pushed, Request, frame_size, push_exact}

-- An object of whole pages fills its frame: the word with the frame's length, which a pop reads, is
-- the last word of the object itself, here of the memory that `vk_stack_push_stack_pages` hands to
-- the new stack.
push_stack_pages_overlap :
    (w : Words) {s : Stack} {ps pages : ℕ}
    → Request s ps pages ps (pages * ps)
    → s.addr_cursor + pages * ps ≤ s.addr_stop
    → (out : Stack × Pushed) × (push_stack_pages ps w s pages ≡ ok out)
      × (out.0.addr_start ≡ s.addr_cursor)
      × (out.0.addr_stop ≡ out.1.stack.addr_cursor)
      × (out.1.words (out.0.addr_stop - word_size) ≡ pages * ps)
unfolding push_stack_pages push_stack stack_init
push_stack_pages_overlap w {s} {ps} {pages} q fits =
    let (holds, whole, big, small) = frame_size q in
    (
      (stack_init s.addr_cursor (mul_size pages ps), pushed w s (pages * ps)),
      rw (push_exact w q, room),
      refl,
      stop,
      ap (pushed w s (pages * ps)).words (ap (λ z. z - word_size) stop) ∙ ground arith,
    )
  where
    room : leb (s.addr_cursor + pages * ps) s.addr_stop ≡ true
    room = ground arith

    stop : add_size s.addr_cursor (mul_size pages ps) ≡ s.addr_cursor + pages * ps
    stop = omega (arith, frame_size q)

empty_len :
    (ps n c : ℕ)
    → 0 < ps
    → ps < size_mod
    → n < size_mod
    → c < size_mod
    → n * c ≡ 0
    → safe_alignedlen ps n c ≡ ok 0
empty_len ps n c h hp hn hc z =
    let (len, e) = safe_alignedlen_total ps n c h hp hn hc (omega arith) in
    let (holds, tight, whole, small) = safe_alignedlen_rounds_up ps n c h hp hn hc e in
    e ∙ ap ok (sym (mod-eq_of_lt {n = len} {m = ps} (omega arith)) ∙ whole)

-- An empty object gets no frame: its push leaves the cursor, and writes 0 over the length of the
-- frame on top, so that a pop afterwards takes nothing off.
push_zero :
    {w : Words} {s : Stack} (len : ℕ) (lens : List ℕ) (ps n c : ℕ)
    → IsStack w s (len ∷ lens)
    → 0 < ps
    → ps < size_mod
    → n < size_mod
    → c < size_mod
    → n * c ≡ 0
    → (p : Pushed) × (push ps w s n c ≡ ok p) × (p.stack ≡ s) × (pop p.words p.stack ≡ ok s)
unfolding push pop
push_zero {w} {s} len lens ps n c v h hp hn hc z =
    let (big, room, link, rest) = v.frames in
    let e : add_size s.addr_cursor 0 ≡ s.addr_cursor = omega (arith, v.below, v.small) in
    let inside : leb s.addr_cursor s.addr_stop ≡ true = ground (arith, v.below) in
    (
      record {
        addr = s.addr_cursor;
        words = put_word w (sub_size s.addr_cursor word_size) 0;
        stack = s;
      },
      rw (empty_len ps n c h hp hn hc z, e, inside),
      refl,
      ground (arith, big, room, v.below, v.small),
    )
