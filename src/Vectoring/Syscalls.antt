-- ===== src/Vectoring/Syscalls.antt =====
-- The operations of vk_vectoring.c that a file descriptor backs. What a system call does is an
-- argument: its result, the `errno` that it leaves and, for a read, the bytes that it has put into
-- the vectors. Each function returns its `ssize_t`, `errno` and the ring.
use mnvkd.Base.{
  ℕ, true, false, List, ◌==◌, ltb, if◌then◌else◌, ℤ, pos, minus_one, eagain, eintr, length,
}
use mnvkd.Vectoring.State.{Vectoring, vector_rx_len, vector_tx_len, rx_len}
use mnvkd.Vectoring.Transfer.{Result, request, scatter, signed_received, signed_sent, send}

-- What `readv` returns: -1 with an errno, or the bytes read, which are none at end of file.
pub data ReadResult : Type 0 where
  failed : ℕ → ReadResult
  got : List ℕ → ReadResult

-- What `writev`, `close` and `shutdown` return: -1 with an errno, or a count.
pub data CallResult : Type 0 where
  refused : ℕ → CallResult
  done : ℕ → CallResult

abbrev pack : ℤ → ℕ × Vectoring → Result
pack rc (errno, r) = record { rc = rc; errno = errno; ring = r }

-- -1 with EAGAIN: blocked, and no effect.
unfoldable pub note_rx_again : ℕ → Vectoring → Vectoring
note_rx_again errno r =
    if errno == eagain then record r { rx_blocked = true; effect = false } else r

unfoldable pub note_tx_again : ℕ → Vectoring → Vectoring
note_tx_again errno r =
    if errno == eagain then record r { tx_blocked = true; effect = false } else r

-- `vk_vectoring_read`. `readv` has filled the vectors before it returns.
unfoldable pub read : ℕ → Vectoring → ReadResult → Result
read errno r (failed e) =
    pack minus_one (signed_received e (note_rx_again e (record r { rx_blocked = false })) minus_one)
read errno r (got bytes) =
    let n = length bytes in
    let filled = record r { mem = scatter r.mem r.vector_rx (request r.vector_rx n) bytes } in
    pack (pos n) (
      signed_received errno (record filled { rx_blocked = ltb n (vector_rx_len r); eof = n == 0 })
        (pos n))

-- `vk_vectoring_write`. A ring that is blocked is not written.
unfoldable pub write : ℕ → Vectoring → CallResult → Result
write errno r out =
    if r.tx_blocked then record { rc = pos 0; errno = errno; ring = r } else written out
  where
    written : CallResult → Result
    written (refused e) = pack minus_one (signed_sent e (note_tx_again e r) minus_one)
    written (done n) =
        pack (pos n) (signed_sent errno (record r { tx_blocked = ltb n (vector_tx_len r) }) (pos n))

-- `vk_vectoring_accept`: `size` is `vk_accepted_alloc_size()`, and the call gives the struct that
-- `vk_accepted_accept` has filled, as its bytes. No call is made where the room is too small.
unfoldable pub accept : ℕ → ℕ → Vectoring → ReadResult → Result
accept size errno r out =
    let retried = record r { rx_blocked = false } in
    if ltb (rx_len r) size
    then record { rc = pos 0; errno = errno; ring = retried }
    else accepted out
  where
    accepted : ReadResult → Result
    accepted (failed e) =
        pack minus_one
          (signed_received e (note_rx_again e (record r { rx_blocked = false })) minus_one)
    accepted (got bytes) = send 0 (record r { rx_blocked = false }) bytes

-- `vk_vectoring_close`, `vk_vectoring_rx_shutdown` and `vk_vectoring_tx_shutdown`: `first` is what
-- the call returns and `again` what a second call does, made if the result equals EINTR. The result
-- goes through `vk_vectoring_signed_sent`.
unfoldable pub shut : ℕ → Vectoring → (first again : CallResult) → Result
shut errno r first again = final (retried first)
  where
    retried : CallResult → CallResult
    retried (refused e) = refused e
    retried (done n) = if n == eintr then again else done n

    final : CallResult → Result
    final (refused e) =
        pack minus_one
          (signed_sent e (record r { error = pos e; closed = true; effect = true }) minus_one)
    final (done n) =
        pack (pos n) (signed_sent errno (record r { closed = true; effect = true }) (pos n))
