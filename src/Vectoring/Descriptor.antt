-- ===== src/Vectoring/Descriptor.antt =====
-- What reading, writing, accepting and closing through a file descriptor do to a valid ring.
use mnvkd.Base.{
  ℕ, ◌-◌, ◌≤◌, ◌≡◌, refl, ◌∙◌, ap, min, List, ◌++◌, arith, ltb, ◌==◌, length, take, take-all, drop,
  ℤ, pos, true, false, Bool, Bool-cases, inl, inr, to_size, subst, minus_one, eagain,
}
use mnvkd.Vectoring.State.{Vectoring, tx_pos, rx_cursor, rx_len}
use mnvkd.Vectoring.Transfer.{signed_received, signed_sent, mark_received, mark_sent}
use mnvkd.Vectoring.Contents.{contents}
use mnvkd.Vectoring.Syscalls.{
  failed, got, CallResult, refused, done, read, write, shut, note_rx_again,
}
use mnvkd.Vectoring.Valid.{
  IsValid, vector_tx_len_lem, vector_rx_len_lem, mark_received-IsValid, mark_sent-IsValid,
  mark_received_lem, mark_sent_lem,
}
use mnvkd.Vectoring.Fifo.{
  length-contents, contents-drop, room, filled, filled_mem, filled-IsValid, contents-received,
}

-- the ring with the flags that a read sets
abbrev flagged : Vectoring → Bool → Bool → Vectoring
flagged r blocked eof = record r { rx_blocked = blocked; eof = eof }

flagged-IsValid : {r : Vectoring} (b e : Bool) → IsValid r → IsValid (flagged r b e)
unfolding rx_cursor rx_len
flagged-IsValid b e v = ground arith

contents-flagged : (r : Vectoring) (b e : Bool) → contents (flagged r b e) ≡ contents r
unfolding contents tx_pos
contents-flagged r b e = refl

-- All of the bytes are received where there is room for them.
received_whole :
    {s : Vectoring} (bs : List ℕ) (w : IsValid s)
    → length bs ≤ s.buf_len - s.tx_len
    → let t = mark_received (filled bs w) (length bs) in
      (contents t ≡ contents s ++ bs) × (t.eof ≡ s.eof) × (t.rx_blocked ≡ s.rx_blocked) × IsValid t
unfolding filled
received_whole {s} bs w h =
    let (len, cursor, same) = mark_received_lem (length bs) (filled-IsValid bs w) h in
    let fit : min (length bs) (room bs w) ≡ length bs = omega arith in
    (
      subst (λ z. contents (mark_received (filled bs w) z) ≡ contents s ++ take z bs) fit
            (contents-received bs w)
          ∙ ap (λ zs. contents s ++ zs) (take-all (length bs) bs refl),
      same.eof,
      same.rx_blocked,
      mark_received-IsValid (length bs) (filled-IsValid bs w),
    )

module _ {r : Vectoring} (v : IsValid r) (errno : ℕ) where
  abbrev after_read : List ℕ → Vectoring
  after_read bytes = flagged r (ltb (length bytes) (r.buf_len - r.tx_len)) (length bytes == 0)

  read_lem :
      (bytes : List ℕ)
      → length bytes ≤ r.buf_len - r.tx_len
      → read errno r (got bytes) ≡ record {
        rc = pos (length bytes);
        errno = errno;
        ring =
            mark_received
              (filled bytes
                (flagged-IsValid (ltb (length bytes) (r.buf_len - r.tx_len)) (length bytes == 0) v))
              (length bytes);
      }
  unfolding read signed_received filled filled_mem
  read_lem bytes h =
      let size : to_size (pos (length bytes)) ≡ length bytes = omega (arith, v.small) in
      rw (vector_rx_len_lem v, size)

  -- A `vk_vectoring_read` for which `readv` brings no more bytes than there is room for appends
  -- those bytes to the ring. It marks end of file exactly when there are none and the read side
  -- blocked exactly when they do not fill the room, returns their number, keeps `errno`, and leaves a valid
  -- ring.
  pub read_refines :
      (bytes : List ℕ)
      → length bytes ≤ r.buf_len - r.tx_len
      → let out = read errno r (got bytes) in
        (contents out.ring ≡ contents r ++ bytes)
        × (out.ring.eof ≡ (length bytes == 0))
        × (out.ring.rx_blocked ≡ ltb (length bytes) (r.buf_len - r.tx_len))
        × (out.rc ≡ pos (length bytes))
        × (out.errno ≡ errno)
        × IsValid out.ring
  read_refines bytes h =
      let (all, eof, blocked, valid) =
        received_whole bytes
          (flagged-IsValid (ltb (length bytes) (r.buf_len - r.tx_len)) (length bytes == 0) v) h in
      rw (read_lem bytes h)
        (all ∙ ap (λ zs. zs ++ bytes) (contents-flagged r _ _), eof, blocked, refl, refl, valid)

  -- the ring with the flag that a write sets
  abbrev after_write : ℕ → Vectoring
  after_write n = record r { tx_blocked = ltb n r.tx_len }

  after_write-IsValid : (n : ℕ) → IsValid (after_write n)
  unfolding rx_cursor rx_len
  after_write-IsValid n = ground arith

  contents-after_write : (n : ℕ) → contents (after_write n) ≡ contents r
  unfolding contents tx_pos
  contents-after_write n = refl

  write_lem :
      (n : ℕ)
      → r.tx_blocked ≡ false
      → n ≤ r.tx_len
      → write errno r (done n)
        ≡ record { rc = pos n; errno = errno; ring = mark_sent (after_write n) n }
  unfolding write signed_sent
  write_lem n unblocked h =
      let size : to_size (pos n) ≡ n = omega (arith, v.small, v.len_in) in
      simp (unblocked, vector_tx_len_lem v, size)

  -- A `vk_vectoring_write` of a ring that is not blocked, for which `writev` takes `n` of its bytes,
  -- drops those from its front. It marks the write side blocked exactly when some are left, returns
  -- `n`, keeps `errno`, and leaves a valid ring.
  pub write_refines :
      (n : ℕ)
      → r.tx_blocked ≡ false
      → n ≤ length (contents r)
      → let out = write errno r (done n) in
        (contents out.ring ≡ drop n (contents r))
        × (out.ring.tx_blocked ≡ ltb n (length (contents r)))
        × (out.rc ≡ pos n)
        × (out.errno ≡ errno)
        × IsValid out.ring
  write_refines n unblocked h =
      let fits : n ≤ r.tx_len = omega (arith, length-contents v) in
      let least : min n r.tx_len ≡ n = omega arith in
      let (len, cursor, same) = mark_sent_lem n (after_write-IsValid n) fits in
      rw (write_lem n unblocked fits, length-contents v)
        (
          subst (λ z. contents (mark_sent (after_write n) z) ≡ drop n (contents r)) least
              (contents-drop n (after_write-IsValid n) ∙ ap (drop n) (contents-after_write n)),
          same.tx_blocked,
          refl,
          refl,
          mark_sent-IsValid n (after_write-IsValid n),
        )

  -- A blocked ring is not written: the call is not made.
  pub write_blocked :
      (out : CallResult)
      → r.tx_blocked ≡ true
      → write errno r out ≡ record { rc = pos 0; errno = errno; ring = r }
  unfolding write
  write_blocked out b = simp b

-- `close` and `shutdown` return 0 or -1.
pub data Documented : CallResult → Type 0 where
  success : Documented (done 0)
  failure : (e : ℕ) → Documented (refused e)

abbrev pub error_of : CallResult → ℤ → ℤ
error_of (refused e) old = pos e
error_of (done n) old = old

-- Whatever `close` or `shutdown` returns, the ring is marked closed with an effect and keeps its
-- bytes. A failure leaves its errno in the ring's error. The call is made once: what a second call
-- would do has no influence, also where the first was interrupted.
pub shut_lem :
    (errno : ℕ) (r : Vectoring) (first again : CallResult)
    → Documented first
    → let out = shut errno r first again in
      (out.ring.closed ≡ true)
      × (out.ring.effect ≡ true)
      × (contents out.ring ≡ contents r)
      × (out.ring.error ≡ error_of first r.error)
      × ((other : CallResult) → shut errno r first other ≡ shut errno r first again)
unfolding shut signed_sent mark_sent contents tx_pos
shut_lem errno r _ again success = (refl, refl, refl, refl, λ other. refl)
shut_lem errno r _ again (failure e) = (refl, refl, refl, refl, λ other. refl)

-- A failed read keeps the contents and end of file, records the errno in the ring and returns -1;
-- the read side is marked blocked exactly for EAGAIN.
read_failed :
    (r : Vectoring) (errno e : ℕ)
    → let out = read errno r (failed e) in
      (contents out.ring ≡ contents r)
      × (out.ring.error ≡ pos e)
      × (out.ring.rx_blocked ≡ (e == eagain))
      × (out.ring.eof ≡ r.eof)
      × (out.rc ≡ minus_one)
unfolding read signed_received note_rx_again contents tx_pos
read_failed r errno e = elim (Bool-cases (e == eagain)) [
  | inl again ↦ simp again (refl, refl, refl, refl, refl)
  | inr other ↦ simp other (refl, refl, refl, refl, refl)
]
