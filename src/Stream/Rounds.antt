-- ===== src/Stream/Rounds.antt =====
-- vk_thread_io.h: the rounds of vk_socket_readline, over the memory that its test for a newline reads
-- and the pieces in which the bytes of a connection come in. A wait is over when the next piece has
-- come, and end of file comes with the last one. The ring has no error, so that receiving from it does
-- not fail, and a buffer does not start at offset 0, since the byte before it can be tested.
use mnvkd.Base.{
  ℕ, zero, suc, ◌+◌, ◌-◌, ◌<◌, ◌≤◌, Bool, true, false, not, ◌&&◌, ◌||◌, ltb, leb, ◌==◌, Bool-cases,
  if◌then◌else◌, if_true, if_false, Option, some, none, List, [], ◌∷◌, ◌++◌, take, drop, length,
  min, ◌≡◌, refl, sym, ap, ap₂, ◌∙◌, inl, inr, arith, ◌⊎◌, length-append, length-drop, take-append,
  take-min, take-all, drop-append, length-take,
}
use mnvkd.Memory.{Mem, load, store, tabulate, store_outside, load-store}
use mnvkd.Stream.{newline, split_line, with_first, or_bytes, read_line}

-- The `struct vk_block` of a read, the bytes in the ring, and the pieces that are still to come.
pub record LineBlock : Type 0 where
  pub mem : Mem
  pub buf : ℕ
  pub len : ℕ
  pub copied : ℕ
  pub ring : List ℕ
  pub pieces : List (List ℕ)

-- `vk_block_init`
abbrev pub line_block : Mem → ℕ → ℕ → List ℕ → List (List ℕ) → LineBlock
line_block mem buf len ring pieces = record {
  mem = mem;
  buf = buf;
  len = len;
  copied = 0;
  ring = ring;
  pieces = pieces;
}

-- `vk_socket_pollhup`
abbrev pub hung_up : LineBlock → Bool
hung_up b = length b.ring == 0 && length b.pieces == 0

-- `vk_vectoring_tx_line_request` of the bytes in the ring
abbrev pub line_request : ℕ → Option (List ℕ × List ℕ) → ℕ
line_request len none = len
line_request len (some (line, rest)) = length line

-- `vk_vectoring_recv` of `n` bytes, and `vk_block_commit`, which moves the buffer on
abbrev pub commit : LineBlock → ℕ → LineBlock
commit b n =
    let bytes = take n b.ring in
    record b {
      mem = store b.mem b.buf bytes;
      buf = b.buf + length bytes;
      len = n - length bytes;
      copied = b.copied + length bytes;
      ring = drop n b.ring;
    }

unfoldable pub receive : LineBlock → LineBlock
receive b = commit b (line_request b.len (split_line b.ring))

-- Whether the byte that is tested is a newline: the buffer has moved on, but the index has not.
abbrev pub at_newline : LineBlock → Bool
at_newline b = b.mem (b.buf + b.copied - 1) == newline

-- The condition of the loop.
abbrev pub reads_on : LineBlock → Bool
reads_on b = not (hung_up b) && (ltb 0 b.len && ((b.copied == 0) || not (at_newline b)))

abbrev pub waits : LineBlock → Bool
waits b = ltb 0 b.len && not (at_newline b)

-- `vk_wait`
abbrev pub wait_piece : LineBlock → List (List ℕ) → LineBlock
wait_piece b [] = b
wait_piece b (piece ∷ pieces) = record b { ring = b.ring ++ piece; pieces = pieces }

abbrev pub wait_if : Bool → LineBlock → LineBlock
wait_if needed b = if needed then wait_piece b b.pieces else b

-- `vk_socket_readline`, on fuel
unfoldable pub readline : ℕ → LineBlock → Option LineBlock
unfolding receive
readline zero b = none
readline (suc fuel) b =
    let b' = receive b in
    let again = readline fuel (wait_if (waits b') b') in
    if not (reads_on b) then some b else (if hung_up b' then some b' else again)

-- What is copied to a buffer, and what is left in the ring.
abbrev pub returned : ℕ → Option LineBlock → Option (List ℕ × List ℕ)
returned buf none = none
returned buf (some b) = some (load b.mem buf b.copied, b.ring)

abbrev pub has_line : Option (List ℕ × List ℕ) → Bool
has_line none = false
has_line (some _) = true

-- Whether a line has no rest to wait for: it is in the ring, or nothing more comes in, or the ring
-- fills the buffer; or whether it has one, but the byte that is tested for a newline, as far behind
-- what is copied as that has bytes, already is one.
abbrev pub is_settled : Mem → ℕ → ℕ → List ℕ → List (List ℕ) → Bool
is_settled mem buf len ring pieces =
    has_line (split_line ring)
    || (length pieces == 0)
    || leb len (length ring)
    || (ltb 0 (length ring) && mem (buf + length ring + length ring - 1) == newline)

with_first-some :
    (x : ℕ) (o : Option (List ℕ × List ℕ)) (line rest : List ℕ)
    → with_first x o ≡ some (line, rest)
    → (l : List ℕ) × (o ≡ some (l, rest)) × (x ∷ l ≡ line)
with_first-some x none line rest e = absurd (cc e)
with_first-some x (some (l, r)) line rest e =
    let same : (x ∷ l, r) ≡ (line, rest) = ap (or_bytes 0 []) e in
    (l, ap (λ (p : List ℕ × List ℕ). some (l, p.1)) same, ap (λ (p : List ℕ × List ℕ). p.0) same)

-- A line and what is behind it make up the bytes that it was found in.
split_line-append :
    (input line rest : List ℕ) → split_line input ≡ some (line, rest) → input ≡ line ++ rest
unfolding split_line
split_line-append [] line rest e = absurd (cc e)
split_line-append (x ∷ input) line rest e = elim (Bool-cases (x == newline)) [
  | inl h ↦
      let same : (x ∷ [], input) ≡ (line, rest) =
        ap (or_bytes 0 []) (sym (if_true (x == newline) _ _ h) ∙ e) in
      ap (λ (p : List ℕ × List ℕ). p.0 ++ p.1) same
  | inr h ↦
      let (l, found, joined) =
        with_first-some x (split_line input) line rest (sym (if_false (x == newline) _ _ h) ∙ e) in
      ap (λ z. x ∷ z) (split_line-append input l rest found) ∙ ap (λ z. z ++ rest) joined
]

-- A read that has all that it asks for ends, and so does one that finds a newline where it looks.
readline_stops :
    (fuel : ℕ) (b : LineBlock)
    → (ltb 0 b.len && ((b.copied == 0) || not (at_newline b))) ≡ false
    → readline (suc fuel) (wait_if (waits b) b) ≡ some b
unfolding readline
readline_stops fuel b h =
    let dry : waits b ≡ false = ground arith in
    ap (λ c. readline (suc fuel) c) (if_false (waits b) _ _ dry)
    ∙ if_true (not (reads_on b)) _ _ (ground arith)

module _ (mem : Mem) (buf len : ℕ) (ring : List ℕ) (pieces : List (List ℕ)) where
  abbrev after : ℕ → LineBlock
  after n = commit (line_block mem buf len ring pieces) n

  returned-commit : (n : ℕ) → returned buf (some (after n)) ≡ some (take n ring, drop n ring)
  returned-commit n =
      ap (λ z. some (z, drop n ring))
        (ap (λ k. load (after n).mem buf k) (omega arith) ∙ load-store mem buf (take n ring))

  -- What is asked for is what `read_line` reads.
  request-read_line :
      (o : Option (List ℕ × List ℕ))
      → split_line ring ≡ o
      → (take (line_request len o) ring, drop (line_request len o) ring) ≡ or_bytes len ring o
  request-read_line none e = refl
  request-read_line (some (line, rest)) e =
      let whole = split_line-append ring line rest e in
      ap₂ (λ (a b : List ℕ). (a, b))
        (ap (take (length line)) whole ∙ take-append line rest (length line) refl)
        (ap (drop (length line)) whole ∙ drop-append line rest (length line) refl)

  -- Where it is settled, nothing more is read.
  abbrev Stops : ℕ → Type 0
  Stops n =
      (hung_up (after n) ≡ true)
      ⊎ ((ltb 0 (after n).len && (((after n).copied == 0) || not (at_newline (after n)))) ≡ false)

  ends_stale :
      take len ring ≡ ring
      → 0 < length ring
      → (mem (buf + length ring + length ring - 1) == newline) ≡ true
      → at_newline (after len) ≡ true
  ends_stale all some_read there =
      let at_index : buf + length (take len ring) + (0 + length (take len ring)) - 1
          ≡ buf + length ring + length ring - 1 =
        omega (arith, ap length all) in
      ap (λ i. store mem buf (take len ring) i == newline) at_index
      ∙ (ap (λ c. c == newline)
            (store_outside mem buf (buf + length ring + length ring - 1) (take len ring)
              (inr (omega (arith, ap length all, some_read))))
          ∙ there)

  short-Stops :
      length ring < len
      → ((length pieces == 0)
          || leb len (length ring)
          || (ltb 0 (length ring) && mem (buf + length ring + length ring - 1) == newline))
        ≡ true
      → Stops len
  short-Stops short settled = elim (Bool-cases (length pieces == 0)) [
    | inl closed ↦ inl (ground (arith, length-drop len ring))
    | inr coming ↦
        let all : take len ring ≡ ring =
          sym (take-min len ring) ∙ take-all (min len (length ring)) ring (omega (arith, short)) in
        let there : (0 < length ring)
            × ((mem (buf + length ring + length ring - 1) == newline) ≡ true) =
          (ground (arith, coming, settled, short), ground (arith, coming, settled, short)) in
        let same : length (take len ring) ≡ length ring = ap length all in
        let seen : at_newline (after len) ≡ true = ends_stale all there.0 there.1 in
        inr (ground (arith, same, there.0, seen))
  ]

  request-Stops :
      (o : Option (List ℕ × List ℕ))
      → split_line ring ≡ o
      → (has_line o
          || (length pieces == 0)
          || leb len (length ring)
          || (ltb 0 (length ring) && mem (buf + length ring + length ring - 1) == newline))
        ≡ true
      → Stops (line_request len o)
  request-Stops none e settled = elim (Bool-cases (ltb (length ring) len)) [
    | inl short ↦ short-Stops (ground (arith, short)) settled
    | inr long ↦ inr (ground (arith, length-take len ring (ground (arith, long))))
  ]
  request-Stops (some (line, rest)) e settled =
      let fits : length line ≤ length ring =
        omega (arith, ap length (split_line-append ring line rest e), length-append line rest) in
      inr (ground (arith, length-take (length line) ring fits))

-- One round of the macro, and the test behind it.
readline_once :
    (fuel : ℕ) (b : LineBlock)
    → reads_on b ≡ true
    → (hung_up (receive b) ≡ true)
      ⊎ ((ltb 0 (receive b).len && (((receive b).copied == 0) || not (at_newline (receive b))))
          ≡ false)
    → readline (suc (suc fuel)) b ≡ some (receive b)
unfolding readline
readline_once fuel b going stops =
    if_false (not (reads_on b)) _ _ (ground (arith, going)) ∙ elim stops [
      | inl hup ↦ if_true (hung_up (receive b)) _ _ hup
      | inr full ↦ if_same (hung_up (receive b)) (readline_stops fuel (receive b) full)
    ]
  where
    if_same : (c : Bool) {x y : Option LineBlock} → y ≡ x → (if c then x else y) ≡ x
    if_same true e = refl
    if_same false e = e

readline_hup : (fuel : ℕ) (b : LineBlock) → hung_up b ≡ true → readline (suc fuel) b ≡ some b
unfolding readline
readline_hup fuel b hup = if_true (not (reads_on b)) _ _ (ground (arith, hup))

read_nothing : (len : ℕ) → ([], []) ≡ read_line len []
unfolding read_line split_line
read_nothing zero = refl
read_nothing (suc len) = refl

-- Where the ring has a newline, or fills the buffer, or nothing more comes in, or it has bytes and
-- the byte of the memory that stands as far behind the last of them as they are many is a newline,
-- `vk_readline` copies to the buffer and leaves in the ring what `read_line` gives of the bytes of
-- the ring, and waits for no more. So a line in the ring is copied whole, however short the buffer
-- is, and a part of one may be returned as if it were all. It holds for any length of the buffer
-- that is not 0, and two rounds are enough.
pub readline-read_line :
    (fuel : ℕ) (mem : Mem) (buf len : ℕ) (ring : List ℕ) (pieces : List (List ℕ))
    → 0 < len
    → is_settled mem buf len ring pieces ≡ true
    → returned buf (readline (suc (suc fuel)) (line_block mem buf len ring pieces))
      ≡ some (read_line len ring)
unfolding read_line receive tabulate
readline-read_line fuel mem buf len [] pieces more settled =
    let closed : (length pieces == 0) ≡ true = ground (arith, more, settled) in
    ap (returned buf) (readline_hup (suc fuel) (line_block mem buf len [] pieces) closed)
    ∙ ap some (read_nothing len)
readline-read_line fuel mem buf len (x ∷ ring) pieces more settled =
    let o = split_line (x ∷ ring) in
    let b = line_block mem buf len (x ∷ ring) pieces in
    let n = line_request len o in
    ap (returned buf) (
      readline_once fuel b (ground (arith, more))
        (request-Stops mem buf len (x ∷ ring) pieces o refl settled))
    ∙ returned-commit mem buf len (x ∷ ring) pieces n
    ∙ ap some (request-read_line mem buf len (x ∷ ring) pieces o refl)
