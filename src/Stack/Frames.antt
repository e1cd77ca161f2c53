-- ===== src/Stack/Frames.antt =====
-- The stack refines a list of frames: a push puts one on top and a pop takes the top one off.
use mnvkd.Base.{
  ℕ, ◌+◌, ◌-◌, ◌*◌, ◌%◌, ◌≤◌, ◌<◌, ◌≡◌, refl, ◌∙◌, ap, leb, if◌then◌else◌, add_size, sub_size,
  size_mod, ok, fail, erange, enomem, List, [], ◌∷◌, arith,
}
use native.Mathlib.Nat.{mod-eq_of_lt}
use native.Mathlib.Decide.{dec_lt}
use mnvkd.WrapGuard.{safe_alignedlen}
use mnvkd.WrapGuard.Laws.{safe_alignedlen_rounds_up}
use mnvkd.Stack.{Words, put_word, word_size, Stack, Pushed, stack_init, push, pop}

-- From `cursor` down to `start` lie frames of these lengths, each with its length in its last word.
abbrev pub Frames : Words → ℕ → ℕ → List ℕ → Type 0
Frames w start cursor [] = cursor ≡ start
Frames w start cursor (len ∷ lens) =
    (word_size ≤ len)
    × (start + len ≤ cursor)
    × (w (cursor - word_size) ≡ len)
    × Frames w start (cursor - len) lens

pub record IsStack (w : Words) (s : Stack) (lens : List ℕ) : Type 0 where
  pub frames : Frames w s.addr_start s.addr_cursor lens
  pub above : s.addr_start ≤ s.addr_cursor
  pub below : s.addr_cursor ≤ s.addr_stop
  pub small : s.addr_stop < size_mod

-- A word written at the cursor or above changes no frame.
Frames-put_word :
    (w : Words) (start cursor a x : ℕ) (lens : List ℕ)
    → cursor ≤ a
    → Frames w start cursor lens
    → Frames (put_word w a x) start cursor lens
Frames-put_word w start cursor a x [] h f = f
Frames-put_word w start cursor a x (len ∷ lens) h (big, room, link, rest) =
    (big, room, ground arith, Frames-put_word w start (cursor - len) a x lens (omega arith) rest)

-- An empty stack over memory that does not wrap.
pub stack_init_lem :
    (w : Words) (addr len : ℕ) → addr + len < size_mod → IsStack w (stack_init addr len) []
unfolding stack_init
stack_init_lem w addr len h = record {
  frames = refl;
  above = omega arith;
  below = omega arith;
  small = omega arith;
}

multiple-ge : (ps len : ℕ) → 0 < len → len % ps ≡ 0 → ps ≤ len
multiple-ge ps len h e = elim (dec_lt len ps) [
  | yes p ↦ absurd (omega (arith, mod-eq_of_lt p))
  | no p ↦ omega arith
]

-- What a push of a frame of `len` bytes leaves.
abbrev pub pushed : Words → Stack → ℕ → Pushed
pushed w s len = record {
  addr = s.addr_cursor;
  words = put_word w (s.addr_cursor + len - word_size) len;
  stack = record s { addr_cursor = s.addr_cursor + len };
}

module _ {w : Words} {s : Stack} {lens : List ℕ} (v : IsStack w s lens) where
  pushed-IsStack :
      (len : ℕ)
      → word_size ≤ len
      → s.addr_cursor + len ≤ s.addr_stop
      → IsStack (pushed w s len).words (pushed w s len).stack (len ∷ lens)
  pushed-IsStack len h room = record {
    frames = (
      h,
      omega (arith, v.above),
      ground arith,
      let e : s.addr_cursor + len - len ≡ s.addr_cursor = omega arith in
          rw e (
            Frames-put_word w s.addr_start s.addr_cursor (s.addr_cursor + len - word_size) len lens
              (omega arith) v.frames),
    );
    above = omega (arith, v.above);
    below = room;
    small = v.small;
  }

-- A pop of a stack with no frame fails with ERANGE.
pub pop_empty : {w : Words} {s : Stack} → IsStack w s [] → pop w s ≡ fail erange
unfolding pop
pop_empty v = ground (arith, v.frames)

module _ {w : Words} {s : Stack} (len : ℕ) (lens : List ℕ) (v : IsStack w s (len ∷ lens)) where
  -- A pop takes the top frame off, which leaves the frames below it.
  pub pop_refines :
      let below = record s { addr_cursor = s.addr_cursor - len } in
      (pop w s ≡ ok below) × IsStack w below lens
  unfolding pop
  pop_refines =
      let (big, room, link, rest) = v.frames in
      let at_link : sub_size s.addr_cursor word_size ≡ s.addr_cursor - word_size =
        omega (arith, v.below, v.small, room) in
      let top : w (sub_size s.addr_cursor word_size) ≡ len = ap w at_link ∙ link in
      (
        ground (arith, top, big, room, v.below, v.small),
        record {
          frames = rest;
          above = omega (arith, room);
          below = omega (arith, v.below);
          small = v.small;
        },
      )

-- A request for an object that is not empty, far enough from the end of the address space that the
-- cursor cannot wrap.
pub record Request (s : Stack) (ps n c len : ℕ) : Type 0 where
  pub word : word_size ≤ ps
  pub nmemb : n < size_mod
  pub count : c < size_mod
  pub room : s.addr_cursor + (n * c + ps) ≤ size_mod
  pub some_bytes : 0 < n * c
  pub frame : safe_alignedlen ps n c ≡ ok len

-- The frame of such a request has whole pages, the object and its own length in it.
pub frame_size :
    {s : Stack} {ps n c len : ℕ}
    → Request s ps n c len
    → (n * c ≤ len) × (len % ps ≡ 0) × (word_size ≤ len) × (s.addr_cursor + len < size_mod)
frame_size {s} {ps} {n} {c} {len} q =
    let (holds, tight, whole, small) =
      safe_alignedlen_rounds_up ps n c (omega (arith, q.word)) (omega (arith, q.room, q.some_bytes))
        q.nmemb q.count q.frame in
    (
      holds,
      whole,
      omega (arith, multiple-ge ps len (omega (arith, q.some_bytes)) whole, q.word),
      omega (arith, q.room),
    )

module _ (w : Words) {s : Stack} {ps n c len : ℕ} (q : Request s ps n c len) where
  pub push_exact :
      push ps w s n c
      ≡ (if leb (s.addr_cursor + len) s.addr_stop then ok (pushed w s len) else fail enomem)
  unfolding push
  push_exact =
      let (holds, whole, big, small) = frame_size q in
      let sum : add_size s.addr_cursor len ≡ s.addr_cursor + len = omega arith in
      let link : sub_size (s.addr_cursor + len) word_size ≡ s.addr_cursor + len - word_size =
        omega arith in
      rw (q.frame, sum, link)

  -- Of an object that is not empty, far enough from the end of the address space that the cursor
  -- cannot wrap, and with room for its frame, a push returns the old cursor. The frame of whole
  -- pages holds the object and comes on top of the other frames, and a pop gives the old stack back.
  pub push_refines :
      {lens : List ℕ}
      → IsStack w s lens
      → s.addr_cursor + len ≤ s.addr_stop
      → (push ps w s n c ≡ ok (pushed w s len))
        × (n * c ≤ len)
        × (len % ps ≡ 0)
        × IsStack (pushed w s len).words (pushed w s len).stack (len ∷ lens)
        × (pop (pushed w s len).words (pushed w s len).stack ≡ ok s)
  push_refines {lens} v fits =
      let (holds, whole, big, small) = frame_size q in
      let after = pushed-IsStack v len big fits in
      let back : s.addr_cursor + len - len ≡ s.addr_cursor = omega arith in
      (
        push_exact ∙ ground arith,
        holds,
        whole,
        after,
        (pop_refines len lens after).0 ∙ ap (λ z. ok (record s { addr_cursor = z })) back,
      )

  -- Where there is no room for the frame, a push fails with ENOMEM.
  pub push_full : s.addr_stop < s.addr_cursor + len → push ps w s n c ≡ fail enomem
  push_full full = push_exact ∙ ground arith
