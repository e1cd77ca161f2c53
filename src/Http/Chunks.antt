-- ===== src/Http/Chunks.antt =====
-- vk_http11.c: an entity in chunks, written by one end and read by the other.
use mathlib.Core.List.{append_assoc}
use mnvkd.Base.{
  ℕ, zero, suc, ◌+◌, ◌*◌, ◌-◌, ◌^◌, ◌<◌, ◌≤◌, Bool, true, not, ◌&&◌, if◌then◌else◌, ltb, leb, ◌==◌,
  if_true, if_false, Bool-cases, inl, inr, ◌/◌, ◌%◌, List, [], ◌∷◌, ◌++◌, length, length-append,
  all_below, all_below_lem, ok as checked, epipe, ◌≡◌, refl, sym, ap, ◌∙◌, arith,
}
use mnvkd.Memory.{store, tabulate, load, length-tabulate}
use mnvkd.Rfc.{return, newline, rtrim, trim_last}
use mnvkd.Rfc.Hex.{Buf, valhex, size_hex, hex_size, read_digits}
use mnvkd.Rfc.Digits.{Holds, power_below}
use mnvkd.Rfc.Sizes.{size_hex-Holds}
use mnvkd.Rfc.Chunks.{
  ChunkHead, chunk_header_text, read_chunk_header, read_chunk_footer, ended_line, update_head,
  update_size, read_chunk_header-chunk_header_text,
}
use mnvkd.Stream.{split_line, read_line, read_bytes}
use mnvkd.Stream.Laws.{is_line, is_line-append, read_line-newline, read_bytes-append}
use mnvkd.Http.Head.{Step, ok, raised, overran}
use mnvkd.Http.Entity.{
  forwarded, go_on, after_footer, forward_chunk, after_chunk_header, read_chunks,
}
use mnvkd.Http.Response.{chunk_text, next_head, chunks_text, chunk_end, concat_all}

abbrev plain_digit : ℕ → Bool
plain_digit x = not (valhex x == newline)

digits_plain : all_below 16 plain_digit ≡ true
unfolding all_below
digits_plain = refl

load_line : (n j size : ℕ) (val : Buf) → Holds n j size val → is_line (tabulate val j n) ≡ true
unfolding Holds tabulate
load_line zero j size val h = refl
load_line (suc n) j size val (d, ds) =
    let x = size / 2 ^ (4 * n) % 16 in
    let plain = all_below_lem 16 plain_digit x digits_plain (omega arith) in
    let more = load_line n (j + 1) size val ds in ground (arith, d, plain, more)

fewer : (n size : ℕ) → size < 2 ^ 60 → 2 ^ (4 * n) ≤ size → n ≤ 14
fewer n size q low = elim (Bool-cases (leb n 14)) [
  | inl e ↦ ground arith
  | inr e ↦ absurd (omega (arith, power_below 60 (4 * n) (ground arith)))
]

-- The line of a chunk's head is short enough to be read.
chunk_header_line :
    (c : ChunkHead)
    → 0 < c.size
    → c.size < 2 ^ 60
    → (line : List ℕ) × (chunk_header_text c ≡ line ++ (return ∷ newline ∷ []))
      × (is_line line ≡ true)
      × (length line ≤ 15)
unfolding chunk_header_text update_head
chunk_header_line c p q =
    let (n, counted, few, low, _, held) =
      size_hex-Holds c.head 18 c.size (omega arith) p (omega arith) in
    let val = (size_hex c.head 18 c.size).0 in
    let rc = (size_hex c.head 18 c.size).1 in
    (
      load val 0 rc,
      ended_line val rc,
      ap (λ m. is_line (load val 0 m)) counted ∙ load_line (suc n) 0 c.size val held,
      omega (arith, length-tabulate val 0 rc, counted, fewer n c.size q low),
    )

-- What is read of the head of a chunk, and of its end.
read_chunk_line :
    (c d : ChunkHead) (rest : List ℕ)
    → 0 < c.size
    → c.size < 2 ^ 60
    → (e : ChunkHead) × (rc : ℕ) × (read_line 17 (chunk_header_text c ++ rest)
        ≡ (chunk_header_text c, rest))
      × (length (chunk_header_text c) ≤ 19)
      × (read_chunk_header d (chunk_header_text c) ≡ checked (e, suc rc))
      × (e.size ≡ c.size)
read_chunk_line c d rest p q =
    let (line, made, plain, few) = chunk_header_line c p q in
    let (e, read, same, some_digits, _) = read_chunk_header-chunk_header_text c d p (omega arith) in
    let ended = line ++ (return ∷ []) in
    let short : length ended < 17 = omega (arith, few, length-append {0} line (return ∷ [])) in
    let whole : chunk_header_text c ++ rest ≡ ended ++ (newline ∷ rest) =
      ap (λ t. t ++ rest) made
      ∙ (append_assoc line (return ∷ newline ∷ []) rest
          ∙ sym (append_assoc line (return ∷ []) (newline ∷ rest))) in
    let text : ended ++ (newline ∷ []) ≡ chunk_header_text c =
      append_assoc line (return ∷ []) (newline ∷ []) ∙ sym made in
    (
      e,
      length (chunk_header_text c) - 3,
      ap (read_line 17) whole
          ∙ (read_line-newline 17 ended rest (is_line-append line (return ∷ []) plain refl) short
              ∙ ap (λ t. (t, rest)) text),
      omega (arith, few, ap length made, length-append {0} line (return ∷ newline ∷ [])),
      read ∙ ap (λ rc. checked (e, rc)) (omega (arith, some_digits)),
      same,
    )

chunk_footer_lem :
    (c : ChunkHead) (rest : List ℕ)
    → 0 < c.size
    → (e : ChunkHead) × (read_chunk_footer c (return ∷ newline ∷ []) ≡ checked (e, 2))
      × (e.size ≡ c.size)
unfolding read_chunk_footer store
chunk_footer_lem c rest p = (_, if_true (ltb 0 c.size) _ _ (ground arith), refl)

abbrev Next : Type 0
Next = ChunkHead → List ℕ → List ℕ × Step (ChunkHead × List ℕ)

-- A chunk is forwarded, and its end taken.
forward_chunk_lem :
    (next : Next) (c : ChunkHead) (bytes rest : List ℕ)
    → 0 < c.size
    → c.size ≡ length bytes
    → (e : ChunkHead) × (forward_chunk next c
          (read_bytes c.size (bytes ++ (return ∷ newline ∷ rest)))
        ≡ forwarded bytes (next e rest))
unfolding read_bytes
forward_chunk_lem next c bytes rest p same =
    let (e, read, kept) = chunk_footer_lem c rest p in
    let sized : ltb 0 e.size ≡ true = ground (arith, kept) in
    (
      e,
      ap (λ n. forward_chunk next c (read_bytes n (bytes ++ (return ∷ newline ∷ rest)))) same
          ∙ (ap (forward_chunk next c) (read_bytes-append bytes (return ∷ newline ∷ rest))
              ∙ ap (forwarded bytes) (
                  if_false (not (length bytes == c.size)) _ _ (ground (arith, same))
                  ∙ (ap (after_footer next rest) read ∙ ap (go_on next e rest) sized))),
    )

abbrev step : Next → ChunkHead → List ℕ × List ℕ → List ℕ × Step (ChunkHead × List ℕ)
step next d r =
    if ltb 19 (length r.0)
    then ([], overran (length r.0))
    else after_chunk_header next r.1 (read_chunk_header d r.0)

read_chunk_lem :
    (fuel : ℕ) (c d : ChunkHead) (bytes rest : List ℕ)
    → 0 < length bytes
    → length bytes < 2 ^ 60
    → (e : ChunkHead) × (read_chunks (suc fuel) d (chunk_text c bytes ++ rest)
        ≡ forwarded bytes (read_chunks fuel e rest))
unfolding read_chunks chunk_text
read_chunk_lem fuel c d bytes rest p q =
    let sized = record c { size = length bytes } in
    let left = bytes ++ (return ∷ newline ∷ rest) in
    let (e, rc, line, few, read, same) = read_chunk_line sized d left p q in
    let (e', kept) = forward_chunk_lem (read_chunks fuel) e bytes rest (omega (arith, same)) same in
    (
      e',
      ap (λ t. step (read_chunks fuel) d (read_line 17 t))
            (append_assoc (chunk_header_text sized) (bytes ++ (return ∷ newline ∷ [])) rest
              ∙ ap (λ t. chunk_header_text sized ++ t)
                  (append_assoc bytes (return ∷ newline ∷ []) rest))
          ∙ (ap (step (read_chunks fuel) d) line
              ∙ (if_false (ltb 19 (length (chunk_header_text sized))) _ _ (ground (arith, few))
                  ∙ (ap (after_chunk_header (read_chunks fuel) left) read ∙ kept))),
    )

pub read_chunks_end :
    (fuel : ℕ) (d : ChunkHead) (rest : List ℕ)
    → (e : ChunkHead) × (read_chunks (suc fuel) d (chunk_end ++ rest)
        ≡ ([], ok (e, return ∷ newline ∷ rest)))
unfolding read_chunks read_line split_line read_chunk_header rtrim trim_last update_size hex_size
    read_digits store
read_chunks_end fuel d rest = (_, refl)

pub read_chunks_none : (fuel : ℕ) (d : ChunkHead) → read_chunks (suc fuel) d [] ≡ ([], raised epipe)
unfolding read_chunks read_line split_line read_chunk_header
read_chunks_none fuel d = refl

-- What comes in by pieces that a chunk may have the size of.
abbrev pub all_small : List (List ℕ) → Bool
all_small [] = true
all_small (bytes ∷ polls) = ltb (length bytes) (2 ^ 60) && all_small polls

-- All the chunks, before whatever follows them.
pub read_chunks-chunks_text :
    (fuel : ℕ) (c d : ChunkHead) (polls : List (List ℕ)) (rest : List ℕ)
    → all_small polls ≡ true
    → length polls < fuel
    → (e : ChunkHead) × (fuel' : ℕ) × (read_chunks fuel d (chunks_text c polls ++ rest)
        ≡ forwarded (concat_all polls) (read_chunks (suc fuel') e rest))
unfolding chunks_text
read_chunks-chunks_text zero c d polls rest h lt = absurd (omega arith)
read_chunks-chunks_text (suc fuel) c d [] rest h lt = (d, fuel, refl)
read_chunks-chunks_text (suc fuel) c d ([] ∷ polls) rest h lt =
    read_chunks-chunks_text (suc fuel) c d polls rest h (omega arith)
read_chunks-chunks_text (suc fuel) c d ((x ∷ bytes) ∷ polls) rest h lt =
    let chunk = x ∷ bytes in
    let more = chunks_text (next_head c chunk) polls in
    let (e, read) = read_chunk_lem fuel c d chunk (more ++ rest) (omega arith) (ground arith) in
    let (e', fuel', later) =
      read_chunks-chunks_text fuel (next_head c chunk) e polls rest (ground arith) (omega arith) in
    let end = read_chunks (suc fuel') e' rest in
    (
      e',
      fuel',
      ap (λ t. read_chunks (suc fuel) d (t ++ rest))
            (if_true (ltb 0 (length chunk)) _ _ (ground arith))
          ∙ (ap (read_chunks (suc fuel) d) (append_assoc (chunk_text c chunk) more rest)
              ∙ (read
                  ∙ (ap (forwarded chunk) later
                      ∙ ap (λ t. (t, end.1)) (sym (append_assoc chunk (concat_all polls) end.0))))),
    )
