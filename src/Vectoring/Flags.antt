-- ===== src/Vectoring/Flags.antt =====
-- End of file between two rings, the emptiness tests, and `vk_vectoring_validate`.
use mnvkd.Base.{
  ℕ, ◌+◌, ◌<◌, ◌≤◌, ◌≡◌, refl, sym, ◌∙◌, ap, ◌⊎◌, true, false, ◌&&◌, ◌||◌, ltb, ◌==◌, if◌then◌else◌,
  arith, pos, ◌^◌, einval, length, List, [], minus_one,
}
use mnvkd.Memory.{Mem, tabulate}
use mnvkd.Vectoring.State.{
  Vectoring, iovec_sync, vectors_within, validate, is_empty, has_nodata, vector_tx_len, mark_eof,
  clear_eof, init, tx_pos, rx_cursor, rx_len,
}
use mnvkd.Vectoring.Transfer.{hup, readhup, forwardhup, send}
use mnvkd.Vectoring.Contents.{contents}
use mnvkd.Vectoring.Valid.{IsValid, vector_tx_len_lem, init-IsValid}
use mnvkd.Vectoring.Fifo.{length-contents}

-- The vectors of a span never pass: the second is the start of the buffer or the literal.
vectors_within-sync :
    (lit : ℕ) (r : Vectoring) (c n : ℕ)
    → (lit ≤ r.buf_start) ⊎ (r.buf_start + r.buf_len < lit)
    → vectors_within lit r (iovec_sync r.buf_len c n) ≡ false
unfolding vectors_within iovec_sync
vectors_within-sync lit r c n out = ground arith

-- `vk_vectoring_validate` reports EINVAL for every valid ring, where the literal "" of an unused
-- vector stands outside the buffer: it asks that a vector starts behind the start of the buffer.
validate_rejects :
    (lit : ℕ) {r : Vectoring}
    → IsValid r
    → (lit ≤ r.buf_start) ⊎ (r.buf_start + r.buf_len < lit)
    → (validate lit r).error ≡ pos einval
unfolding validate
validate_rejects lit {r} v out =
    let no_rx : vectors_within lit r r.vector_rx ≡ false =
      ap (vectors_within lit r) v.synced_rx
      ∙ vectors_within-sync lit r (rx_cursor r) (rx_len r) out in
    simp no_rx

-- `vk_vectoring_is_empty` tells whether the ring holds no byte, and `vk_vectoring_has_nodata` whether
-- moreover end of file is marked.
pub is_empty_lem :
    {r : Vectoring}
    → IsValid r
    → (is_empty r ≡ (length (contents r) == 0))
      × (has_nodata r ≡ (r.eof && length (contents r) == 0))
unfolding has_nodata is_empty vector_tx_len
is_empty_lem {r} v =
    let e : vector_tx_len r ≡ length (contents r) = vector_tx_len_lem v ∙ sym (length-contents v) in
    (ap (λ n. n == 0) e, ap (λ n. r.eof && n == 0) e)

-- A ring made by `vk_vectoring_init` over a buffer of at most half the address space is valid and
-- empty, with no error and no end of file; `closed` is not reset.
pub init_lem :
    (old : Vectoring) (m : Mem) (start len : ℕ)
    → 0 < len
    → len < 2 ^ 63
    → let r = init old m start len in
      IsValid r × (contents r ≡ []) × (r.error ≡ pos 0) × (r.eof ≡ false) × (r.closed ≡ old.closed)
unfolding contents init tabulate
init_lem old m start len h k = (init-IsValid old m start len h k, refl, refl, refl, refl)

-- End of file: marked once by `vk_vectoring_hup` on a ring where it is not marked, it keeps a
-- `vk_vectoring_send` of some bytes from taking effect until one `vk_vectoring_readhup` has consumed
-- it, which leaves the ring as it was but for the effect. A second hup and a second readhup fail
-- with EINVAL.
hup-readhup :
    (errno : ℕ) (r : Vectoring) (bytes : List ℕ)
    → r.eof ≡ false
    → 0 < length bytes
    → let up = hup errno r in
      let down = readhup errno up.ring in
      (up.rc ≡ pos 1)
      × ((send errno up.ring bytes).ring ≡ up.ring)
      × ((hup errno up.ring).rc ≡ minus_one)
      × ((hup errno up.ring).errno ≡ einval)
      × (down.rc ≡ pos 1)
      × (down.ring ≡ record r { effect = true })
      × ((readhup errno down.ring).rc ≡ minus_one)
unfolding hup readhup mark_eof clear_eof send
hup-readhup errno r bytes clear some_bytes =
    let up : hup errno r
        ≡ record { rc = pos 1; errno = errno; ring = record r { effect = true; eof = true } } =
      simp clear in
    let asked : ltb 0 (length bytes) ≡ true = ground arith in
    rw up (
      refl,
      simp asked,
      refl,
      refl,
      refl,
      ap (λ b. record r { effect = true; eof = b }) (sym clear),
      refl,
    )

-- `vk_vectoring_forwardhup` moves end of file from one ring to the other, and does nothing where it
-- is not marked.
pub forwardhup_lem :
    (tx rx : Vectoring)
    → let (rc, tx', rx') = forwardhup tx rx in
      (tx'.eof ≡ false)
      × (rx'.eof ≡ (tx.eof || rx.eof))
      × (rc ≡ (if tx.eof then pos 1 else pos 0))
      × (contents tx' ≡ contents tx)
      × (contents rx' ≡ contents rx)
unfolding forwardhup mark_eof clear_eof contents tx_pos
forwardhup_lem tx rx = ground arith
