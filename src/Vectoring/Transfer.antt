-- ===== src/Vectoring/Transfer.antt =====
-- The copies between the ring and other memory, and between two rings; end of file between rings.
-- The two rings of a splice have separate buffers. `errno` goes in and comes out as a number.
use mnvkd.Base.{
  ℕ, ◌%◌, Bool, true, ◌&&◌, List, [], ◌++◌, ltb, leb, ◌==◌, if◌then◌else◌, length, take, drop, ℤ,
  pos, negsuc, minus_one, add_size, sub_size, to_size, einval, enobufs, Checked, ok, fail,
}
use mnvkd.Memory.{Mem, load, store}
use mnvkd.WrapGuard.{wrapguard_add}
use mnvkd.Vectoring.State.{
  Base, at, literal, Vectors, Vectoring, rx_len, sync, vector_tx_len, vector_rx_len, clear_eof,
  mark_eof, size_return,
}

-- `memcpy` from and to a vector's base. The literal is never copied from: its length is 0.
unfoldable pub copy_out : Mem → Base → ℕ → List ℕ
copy_out m (at off) n = load m off n
copy_out m literal n = []

unfoldable pub copy_in : Mem → Base → List ℕ → Mem
copy_in m (at off) bytes = store m off bytes
copy_in m literal bytes = m

unfoldable pub mark_received : Vectoring → ℕ → Vectoring
mark_received r received =
    if received == 0
    then r
    else (if ltb received (rx_len r)
        then record (sync (record r { tx_len = add_size r.tx_len received % r.buf_len })) {
          effect = true;
        }
        else (if received == rx_len r
            then record (sync (record r { tx_len = r.buf_len })) { effect = true }
            else record r { error = pos enobufs; effect = true }))

unfoldable pub mark_sent : Vectoring → ℕ → Vectoring
mark_sent r sent =
    if sent == 0
    then r
    else (if leb sent r.tx_len
        then record (sync (record r {
          tx_cursor = add_size r.tx_cursor sent % r.buf_len;
          tx_len = sub_size r.tx_len sent;
        })) { effect = true }
        else record r { error = pos enobufs; effect = true })

-- `vk_vectoring_signed_received` and `_sent`: the ring and `errno` afterwards. The C functions
-- return their argument.
unfoldable pub signed_received : ℕ → Vectoring → ℤ → ℕ × Vectoring
signed_received errno r (pos n) = (errno, mark_received r (to_size (pos n)))
signed_received errno r (negsuc n) = (0, record r { error = pos errno })

unfoldable pub signed_sent : ℕ → Vectoring → ℤ → ℕ × Vectoring
signed_sent errno r (pos n) = (errno, mark_sent r (to_size (pos n)))
signed_sent errno r (negsuc n) = (0, record r { error = pos errno })

-- `vk_vectoring_request`: how much of each vector a request of `len` bytes takes.
unfoldable pub request : Vectors → ℕ → ℕ × ℕ
request vs len =
    if leb len vs.first.iov_len
    then (len, 0)
    else (if leb len (add_size vs.first.iov_len vs.second.iov_len)
        then (vs.first.iov_len, sub_size len vs.first.iov_len)
        else (vs.first.iov_len, vs.second.iov_len))

-- What a call leaves: its `ssize_t` result, `errno` and the ring.
pub record Result : Type 0 where
  pub rc : ℤ
  pub errno : ℕ
  pub ring : Vectoring

unfoldable pub finish : ℕ → ℤ × Vectoring → Result
finish errno (rc, r) = record { rc = rc; errno = errno; ring = r }

-- The guard on the sum of the two lengths, and what follows it.
unfoldable pub guarded : ℕ → Vectoring → Checked (Unit {0}) → Result → Result
guarded errno r (ok _) rest = rest
guarded errno r (fail e) rest = record { rc = minus_one; errno = e; ring = r }

-- The bytes that `vk_vectoring_recv` copies to its buffer.
unfoldable pub gather : Mem → Vectors → ℕ × ℕ → List ℕ
gather m vs lengths =
    copy_out m vs.first.iov_base lengths.0 ++ copy_out m vs.second.iov_base lengths.1

unfoldable pub recv_bytes : Vectoring → ℕ → List ℕ
recv_bytes r len = gather r.mem r.vector_tx (request r.vector_tx len)

unfoldable pub recv : ℕ → Vectoring → ℕ → Result
recv errno r len =
    let lengths = request r.vector_tx len in
    let sent = add_size lengths.0 lengths.1 in
    guarded errno r (wrapguard_add lengths.0 lengths.1)
      (finish errno (size_return (mark_sent r sent) sent))

-- The buffer after `vk_vectoring_send` has copied its bytes into the two vectors.
unfoldable pub scatter : Mem → Vectors → ℕ × ℕ → List ℕ → Mem
scatter m vs lengths bytes =
    copy_in (copy_in m vs.first.iov_base (take lengths.0 bytes)) vs.second.iov_base
      (take lengths.1 (drop lengths.0 bytes))

-- `bytes` is the buffer, all of which is to be sent: `len` is its length.
unfoldable pub send : ℕ → Vectoring → List ℕ → Result
send errno r bytes =
    let lengths = request r.vector_rx (length bytes) in
    let received = add_size lengths.0 lengths.1 in
    let filled = record r { mem = scatter r.mem r.vector_rx lengths bytes } in
    if ltb 0 (length bytes) && r.eof
    then record { rc = pos 0; errno = errno; ring = r }
    else guarded errno filled (wrapguard_add lengths.0 lengths.1)
        (finish errno (size_return (mark_received filled received) received))

-- What a call on two rings leaves.
pub record Spliced : Type 0 where
  pub rc : ℤ
  pub errno : ℕ
  pub ring_rx : Vectoring
  pub ring_tx : Vectoring

-- How much `vk_vectoring_recv_splice` is to move: the least of the room, the bytes there and `len`,
-- which counts only where it is not negative.
unfoldable pub splice_len : Vectoring → Vectoring → ℤ → ℕ
splice_len ring_rx ring_tx len = limit len
  where
    available : ℕ
    available =
        if ltb (vector_rx_len ring_rx) (vector_tx_len ring_tx)
        then vector_rx_len ring_rx
        else vector_tx_len ring_tx

    limit : ℤ → ℕ
    limit (pos n) = if ltb n available then n else available
    limit (negsuc n) = available

-- One of its two copies: `vk_vectoring_recv` into a vector of the receiving ring, where there is
-- something to copy. The Boolean tells whether as much came as was asked for.
unfoldable pub splice_part : ℕ → Vectoring → Vectoring → Base → ℕ → Bool × ℕ × Vectoring × Vectoring
splice_part errno ring_rx ring_tx base len =
    let out = recv errno ring_tx len in
    if ltb 0 len
    then (
      to_size out.rc == len,
      out.errno,
      record ring_rx { mem = copy_in ring_rx.mem base (recv_bytes ring_tx len) },
      out.ring,
    )
    else (true, errno, ring_rx, ring_tx)

unfoldable pub splice_end : ℕ → Vectoring → Vectoring → ℕ → Spliced
splice_end errno ring_rx ring_tx received =
    let out = size_return (mark_received ring_rx received) received in
    record { rc = out.0; errno = errno; ring_rx = out.1; ring_tx = ring_tx }

abbrev splice_failed : Vectoring → Vectoring → Spliced
splice_failed ring_rx ring_tx = record {
  rc = minus_one;
  errno = einval;
  ring_rx = ring_rx;
  ring_tx = ring_tx;
}

unfoldable pub recv_splice : ℕ → Vectoring → Vectoring → ℤ → Spliced
recv_splice errno ring_rx ring_tx len =
    let vectors = ring_rx.vector_rx in
    let lengths = request vectors (splice_len ring_rx ring_tx len) in
    let (whole, errno', rx', tx') =
      splice_part errno ring_rx ring_tx vectors.first.iov_base lengths.0 in
    let (whole', errno'', rx'', tx'') =
      splice_part errno' rx' tx' vectors.second.iov_base lengths.1 in
    if whole
    then (if whole'
        then splice_end errno'' rx'' tx'' (add_size lengths.0 lengths.1)
        else splice_failed rx'' tx'')
    else splice_failed rx' tx'

-- `vk_vectoring_splice`: the comparisons read the lengths that are left after the move.
unfoldable pub splice : ℕ → Vectoring → Vectoring → ℤ → Spliced
splice errno ring_rx ring_tx len =
    let out = recv_splice errno ring_rx ring_tx len in
    record out {
      ring_rx = record (out.ring_rx) {
        rx_blocked = ltb (to_size out.rc) (vector_rx_len out.ring_rx);
      };
      ring_tx = record (out.ring_tx) {
        tx_blocked = ltb (to_size out.rc) (vector_tx_len out.ring_tx);
      };
    }

unfoldable pub hup : ℕ → Vectoring → Result
hup errno r =
    if r.eof
    then record { rc = minus_one; errno = einval; ring = r }
    else record { rc = pos 1; errno = errno; ring = (mark_eof r).1 }

unfoldable pub readhup : ℕ → Vectoring → Result
readhup errno r =
    if r.eof
    then record { rc = pos 1; errno = errno; ring = clear_eof r }
    else record { rc = minus_one; errno = einval; ring = r }

unfoldable pub forwardhup : Vectoring → Vectoring → ℤ × Vectoring × Vectoring
forwardhup ring_tx ring_rx =
    if ring_tx.eof
    then (pos 1, clear_eof ring_tx, (mark_eof ring_rx).1)
    else (pos 0, ring_tx, ring_rx)
