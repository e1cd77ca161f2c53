-- ===== src/Tests/Lines.antt =====
-- Lines that come in by pieces, before a newline that is left in the buffer, and without one.
use mnvkd.Base.{◌==◌, if◌then◌else◌, some, [], ◌∷◌, codes, ◌≡◌, refl, arith}
use mnvkd.Memory.{Mem, store, tabulate}
use mnvkd.Stream.{newline, read_line, split_line}
use mnvkd.Stream.Rounds.{line_block, receive, readline, returned, readline-read_line}

-- A newline at offset 4, in the middle of a buffer that starts at 1.
abbrev memory : Mem
memory i = if i == 4 then newline else 65

-- The first two bytes of a line are returned where the newline is there.
cut :
    returned 1 (readline 2 (line_block memory 1 8 (codes "ab") (codes "c\n" ∷ [])))
    ≡ some (codes "ab", [])
unfolding readline receive split_line store tabulate
cut = refl

-- Where it is not, the rest of the line is waited for.
whole :
    returned 1 (readline 3 (line_block (λ i. 65) 1 8 (codes "ab") (codes "c\n" ∷ [])))
    ≡ some (codes "abc\n", [])
unfolding readline receive split_line store tabulate
whole = refl

-- A line of four bytes goes over a buffer of two.
longer :
    returned 1 (readline 2 (line_block memory 1 2 (codes "abc\nd") []))
    ≡ some (codes "abc\n", codes "d")
unfolding readline receive split_line store tabulate
longer = refl

readline-read_line_example :
    returned 1 (readline 2 (line_block memory 1 8 (codes "ab") (codes "c\n" ∷ [])))
    ≡ some (read_line 8 (codes "ab"))
unfolding split_line
readline-read_line_example =
    readline-read_line 0 memory 1 8 (codes "ab") (codes "c\n" ∷ []) (omega arith) refl
