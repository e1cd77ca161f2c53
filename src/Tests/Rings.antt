-- ===== src/Tests/Rings.antt =====
-- Rings of a few bytes, one of which goes round the end of its buffer.
use mnvkd.Base.{
  ℕ, ◌-◌, ◌≡◌, refl, arith, true, false, ◌&&◌, if◌then◌else◌, ltb, List, [], ◌∷◌, ◌++◌, length,
  take, drop, min, pos, negsuc, some, eintr,
}
use mnvkd.Memory.{tabulate, store}
use mnvkd.WrapGuard.{wrapguard_add}
use mnvkd.Vectoring.State.{
  Vectoring, at, literal, rx_cursor, rx_len, tx_pos, iovec_sync, sync, init, size_return,
}
use mnvkd.Vectoring.Transfer.{
  recv, recv_bytes, request, copy_out, copy_in, scatter, send, mark_received, guarded, finish,
  splice,
}
use mnvkd.Vectoring.Syscalls.{got, refused, done, read, write, shut}
use mnvkd.Vectoring.Lines.{find_newline, tx_line_len, block_loop, scan, compare_mask, lowest_set}
use mnvkd.Vectoring.Lines.Laws.{find_newline-scan}
use mnvkd.Vectoring.Lines.LineLen.{LineResult, tx_line_len_lem}
use mnvkd.Vectoring.Contents.{contents}
use mnvkd.Vectoring.Valid.{IsValid, init-IsValid}
use mnvkd.Vectoring.Fifo.{recv_refines, send_refines}
use mnvkd.Vectoring.Splicing.{asked, splice_refines}
use mnvkd.Vectoring.Descriptor.{read_refines, write_refines, shut_lem, failure}
use mnvkd.Vectoring.Lines.{scan as scan_bytes, rest, block_loop as blocks, find_newline as find}
use mnvkd.Vectoring.Fifo.{length-contents}

-- `a`, `\n`, `b` from index 2 on, in a buffer of four bytes: `b` stands at index 0.
abbrev pub ring : Vectoring
ring = record {
  mem = store (λ i. 0) 0 (98 ∷ 0 ∷ 97 ∷ 10 ∷ []);
  buf_start = 1000;
  buf_len = 4;
  tx_cursor = 2;
  tx_len = 3;
  vector_tx = record {
    first = record { iov_base = at 2; iov_len = 2 };
    second = record { iov_base = at 0; iov_len = 1 };
  };
  vector_rx = record {
    first = record { iov_base = at 1; iov_len = 1 };
    second = record { iov_base = literal; iov_len = 0 };
  };
  error = pos 0;
  eof = false;
  closed = false;
  rx_blocked = false;
  tx_blocked = false;
  effect = false;
}

pub ring-IsValid : IsValid ring
unfolding iovec_sync rx_cursor rx_len
ring-IsValid = record {
  positive = omega arith;
  small = omega arith;
  cursor_in = omega arith;
  len_in = omega arith;
  no_minus_one = refl;
  synced_tx = refl;
  synced_rx = refl;
}

-- an empty ring of eight bytes
abbrev empty : Vectoring
empty = record (init ring (λ i. 0) 2000 8) { closed = false }

empty-IsValid : IsValid (init ring (λ i. 0) 2000 8)
empty-IsValid = init-IsValid ring (λ i. 0) 2000 8 (omega arith) (omega arith)

contents-ring : contents ring ≡ 97 ∷ 10 ∷ 98 ∷ []
unfolding contents tabulate tx_pos store
contents-ring = refl

send_one : contents (send 0 ring (120 ∷ 121 ∷ [])).ring ≡ 97 ∷ 10 ∷ 98 ∷ 120 ∷ []
unfolding send guarded finish size_return mark_received sync rx_len rx_cursor iovec_sync request
    scatter copy_in wrapguard_add contents tabulate tx_pos store
send_one = refl

recv_refines_example :
    let out = recv 0 ring 2 in
    (recv_bytes ring 2 ≡ take 2 (contents ring))
    × (contents out.ring ≡ drop 2 (contents ring))
    × (out.rc ≡ pos (min 2 (length (contents ring))))
    × (out.errno ≡ 0)
    × IsValid out.ring
recv_refines_example = recv_refines 2 ring-IsValid 0

send_refines_example :
    let bytes : List ℕ = 120 ∷ 121 ∷ [] in
    let out = send 0 ring bytes in
    let taken = if ltb 0 (length bytes) && false then 0 else min 2 (4 - length (contents ring)) in
    (contents out.ring ≡ contents ring ++ take taken bytes)
    × (out.rc ≡ pos taken)
    × (out.errno ≡ 0)
    × IsValid out.ring
send_refines_example = send_refines (120 ∷ 121 ∷ []) ring-IsValid 0

splice_refines_example :
    let rx = init ring (λ i. 0) 2000 8 in
    let out = splice 0 rx ring (negsuc 0) in
    let n = asked empty-IsValid ring-IsValid (negsuc 0) in
    (contents out.ring_rx ≡ contents rx ++ take n (contents ring))
    × (contents out.ring_tx ≡ drop n (contents ring))
    × (out.rc ≡ pos n)
    × (out.errno ≡ 0)
    × IsValid out.ring_rx
    × IsValid out.ring_tx
splice_refines_example = splice_refines empty-IsValid ring-IsValid 0 (negsuc 0)

tx_line_len_lem_example : LineResult (tx_line_len (32 ∷ 16 ∷ []) ring) (contents ring)
tx_line_len_lem_example = tx_line_len_lem ring-IsValid (32 ∷ 16 ∷ [])

tx_line_len_two : tx_line_len (2 ∷ []) ring ≡ some 2
unfolding tx_line_len find_newline copy_out tabulate block_loop scan compare_mask lowest_set store
tx_line_len_two = refl

read_refines_example :
    let out = read 0 ring (got (120 ∷ [])) in
    (contents out.ring ≡ contents ring ++ (120 ∷ []))
    × (out.ring.eof ≡ false)
    × (out.ring.rx_blocked ≡ false)
    × (out.rc ≡ pos 1)
    × (out.errno ≡ 0)
    × IsValid out.ring
read_refines_example = read_refines ring-IsValid 0 (120 ∷ []) (omega arith)

write_refines_example :
    let out = write 0 ring (done 2) in
    (contents out.ring ≡ drop 2 (contents ring))
    × (out.ring.tx_blocked ≡ ltb 2 (length (contents ring)))
    × (out.rc ≡ pos 2)
    × (out.errno ≡ 0)
    × IsValid out.ring
write_refines_example =
    write_refines ring-IsValid 0 2 refl (omega (arith, length-contents ring-IsValid))

shut_lem_example :
    let out = shut 0 ring (refused eintr) (done 0) in
    (out.ring.closed ≡ true)
    × (out.ring.effect ≡ true)
    × (contents out.ring ≡ contents ring)
    × (out.ring.error ≡ pos 4)
    × ((other : _) → shut 0 ring (refused eintr) other ≡ shut 0 ring (refused eintr) (done 0))
shut_lem_example = shut_lem 0 ring (refused eintr) (done 0) (failure eintr)

find_newline-scan_example : find (2 ∷ []) (97 ∷ 98 ∷ 10 ∷ []) ≡ scan_bytes (97 ∷ 98 ∷ 10 ∷ []) 0
find_newline-scan_example = find_newline-scan (2 ∷ []) (97 ∷ 98 ∷ 10 ∷ [])

no_newline : blocks 2 3 (97 ∷ 98 ∷ 99 ∷ []) 0 ≡ rest (99 ∷ []) 2
unfolding blocks compare_mask lowest_set
no_newline = refl
