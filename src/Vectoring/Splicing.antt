-- ===== src/Vectoring/Splicing.antt =====
-- `vk_vectoring_recv_splice` and `vk_vectoring_splice`: moving bytes from one ring to another.
use mnvkd.Base.{
  to_size, ℕ, ◌+◌, ◌-◌, ◌≤◌, ◌≡◌, refl, sym, ◌∙◌, ap, ap₂, min, List, [], ◌∷◌, ◌++◌, arith, ltb,
  ◌==◌, length, take, drop, subst, take-all, take-take, length-take, add_size, take-drop-take,
  drop-drop, ℤ, pos, negsuc, true, Bool-cases, inl, inr,
}
use mnvkd.Memory.{Mem, store}
use mnvkd.Vectoring.State.{tx_pos, Base, at, literal, Vectoring, vector_tx_len, vector_rx_len}
use mnvkd.Vectoring.Transfer.{
  request, recv_bytes, mark_received, mark_sent, copy_in, splice_len, splice_part, splice_end,
  recv_splice, splice, scatter,
}
use mnvkd.Vectoring.Contents.{contents}
use mnvkd.Vectoring.Valid.{
  set_rx_blocked-IsValid, set_tx_blocked-IsValid, size_return_lem, vector_tx_len_lem,
  vector_rx_len_lem, IsValid, mark_sent_lem, mark_received_lem, mark_sent-IsValid,
  mark_received-IsValid, recv_lem,
}
use mnvkd.Vectoring.Fifo.{
  length-contents, length-recv_bytes, recv_bytes-take, contents-drop, request_rx, room, filled,
  filled_mem, filled-IsValid, contents-received,
}

-- Nothing is copied where nothing is asked for.
part_of_none :
    (m : Mem) (base : Base) (bytes : List ℕ) → length bytes ≡ 0 → copy_in m base bytes ≡ m
unfolding copy_in store
part_of_none m (at off) [] e = refl
part_of_none m literal [] e = refl
part_of_none m base (x ∷ bytes) e = absurd (omega arith)

mark_sent-zero : (r : Vectoring) → mark_sent r 0 ≡ r
unfolding mark_sent
mark_sent-zero r = refl

-- One of the two copies takes all that it asks for, if there is as much.
splice_part_lem :
    (errno : ℕ) (rx tx : Vectoring) (base : Base) (n : ℕ)
    → IsValid tx
    → n ≤ tx.tx_len
    → splice_part errno rx tx base n
      ≡ (true, errno, record rx { mem = copy_in rx.mem base (recv_bytes tx n) }, mark_sent tx n)
unfolding splice_part
splice_part_lem errno rx tx base n v h =
    let e : min n tx.tx_len ≡ n = omega arith in
    let size : (to_size (pos n) == n) ≡ true = ground (arith, v.len_in, v.small) in
    rw (recv_lem n v errno, e)
      (elim (Bool-cases (ltb 0 n)) [
        | inl some_bytes ↦ rw (some_bytes, size)
        | inr none_asked ↦ rw none_asked (
            let z : n ≡ 0 = ground arith in
            let nothing : mark_sent tx n ≡ tx = ap (mark_sent tx) z ∙ mark_sent-zero tx in
            let short : length (recv_bytes tx n) ≡ 0 = length-recv_bytes n v ∙ omega arith in
            rw (part_of_none rx.mem base (recv_bytes tx n) short, nothing))
      ])

module _ {rx tx : Vectoring} (vr : IsValid rx) (vt : IsValid tx) where
  -- The bytes asked for: all of them where `len` is negative.
  abbrev pub asked : ℤ → ℕ
  asked (pos n) = min n (min (rx.buf_len - rx.tx_len) tx.tx_len)
  asked (negsuc _) = min (rx.buf_len - rx.tx_len) tx.tx_len

  asked_fits : (len : ℤ) → (asked len ≤ rx.buf_len - rx.tx_len) × (asked len ≤ tx.tx_len)
  asked_fits (pos n) = omega arith
  asked_fits (negsuc n) = omega arith

  splice_len_lem : (len : ℤ) → splice_len rx tx len ≡ asked len
  unfolding splice_len
  splice_len_lem (pos n) = rw (vector_rx_len_lem vr, vector_tx_len_lem vt) (ground arith)
  splice_len_lem (negsuc n) = rw (vector_rx_len_lem vr, vector_tx_len_lem vt) (ground arith)

  module _ (n : ℕ) (fits : n ≤ rx.buf_len - rx.tx_len) (there : n ≤ tx.tx_len) where
    abbrev bytes : List ℕ
    bytes = take n (contents tx)

    length-bytes : length bytes ≡ n
    length-bytes = length-take n (contents tx) (omega (arith, length-contents vt))

    -- the two lengths of the request
    abbrev head_len : ℕ
    head_len = (request rx.vector_rx n).0

    abbrev tail_len : ℕ
    tail_len = (request rx.vector_rx n).1

    whole : head_len + tail_len ≡ n
    whole = ap (λ (p : ℕ × ℕ). p.0 + p.1) (request_rx [] vr n) ∙ omega arith

    abbrev moved_tx : Vectoring
    moved_tx = mark_sent (mark_sent tx head_len) tail_len

    contents-mark_sent :
        {r : Vectoring} (k : ℕ)
        → IsValid r
        → k ≤ r.tx_len
        → contents (mark_sent r k) ≡ drop k (contents r)
    contents-mark_sent {r} k v h =
        ap (λ z. contents (mark_sent r z)) (omega arith) ∙ contents-drop k v

    tail_fits : tail_len ≤ (mark_sent tx head_len).tx_len
    tail_fits = omega (arith, whole, (mark_sent_lem head_len vt (omega (arith, whole))).0)

    contents-moved_tx : contents moved_tx ≡ drop n (contents tx)
    contents-moved_tx =
        contents-mark_sent tail_len (mark_sent-IsValid head_len vt) tail_fits
        ∙ ap (drop tail_len) (contents-mark_sent head_len vt (omega (arith, whole)))
        ∙ drop-drop head_len tail_len (contents tx)
        ∙ ap (λ z. drop z (contents tx)) whole

    part_bytes :
        (recv_bytes tx head_len ≡ take head_len bytes)
        × (recv_bytes (mark_sent tx head_len) tail_len ≡ take tail_len (drop head_len bytes))
    part_bytes = (
      recv_bytes-take head_len vt ∙ sym (take-take head_len n (contents tx) (omega (arith, whole))),
      recv_bytes-take tail_len (mark_sent-IsValid head_len vt)
          ∙ ap (take tail_len) (contents-mark_sent head_len vt (omega (arith, whole)))
          ∙ sym (take-drop-take head_len tail_len n (contents tx) (omega (arith, whole))),
    )

    abbrev received_mem : List ℕ → List ℕ → Mem
    received_mem xs ys =
        copy_in (copy_in rx.mem rx.vector_rx.first.iov_base xs) rx.vector_rx.second.iov_base ys

    -- The two copies fill the free space as one `vk_vectoring_send` of the bytes would.
    copied :
        record rx {
          mem = received_mem (recv_bytes tx head_len) (recv_bytes (mark_sent tx head_len) tail_len);
        }
        ≡ filled bytes vr
    unfolding filled filled_mem scatter
    copied =
        ap₂ (λ xs ys. record rx { mem = received_mem xs ys }) part_bytes.0 part_bytes.1
        ∙ ap (λ z. record rx { mem = scatter rx.mem rx.vector_rx (request rx.vector_rx z) bytes })
            (sym length-bytes)

    contents-copied : contents (mark_received (filled bytes vr) n) ≡ contents rx ++ bytes
    contents-copied =
        let fit : min (length bytes) (room bytes vr) ≡ n = omega (arith, length-bytes) in
        subst (λ z. contents (mark_received (filled bytes vr) z) ≡ contents rx ++ take z bytes) fit
          (contents-received bytes vr)
        ∙ ap (λ zs. contents rx ++ zs) (take-all n bytes (sym length-bytes))

    rx_left : vector_rx_len (mark_received (filled bytes vr) n) ≡ rx.buf_len - rx.tx_len - n
    unfolding filled
    rx_left =
        let (len, cursor, same) = mark_received_lem n (filled-IsValid bytes vr) fits in
        vector_rx_len_lem (mark_received-IsValid n (filled-IsValid bytes vr))
        ∙ omega (arith, len, same.buf_len)

    tx_left : vector_tx_len moved_tx ≡ tx.tx_len - n
    tx_left =
        let first = mark_sent_lem head_len vt (omega (arith, whole)) in
        let second = mark_sent_lem tail_len (mark_sent-IsValid head_len vt) tail_fits in
        vector_tx_len_lem (mark_sent-IsValid tail_len (mark_sent-IsValid head_len vt))
        ∙ omega (arith, first.0, second.0, whole)

    splice_end_lem :
        (errno : ℕ)
        → splice_end errno (filled bytes vr) moved_tx (add_size head_len tail_len) ≡ record {
          rc = pos n;
          errno = errno;
          ring_rx = mark_received (filled bytes vr) n;
          ring_tx = moved_tx;
        }
    unfolding splice_end
    splice_end_lem errno =
        let sum : add_size head_len tail_len ≡ n = omega (arith, whole, vr.small) in
        rw (
          sum,
          size_return_lem (mark_received (filled bytes vr) n) n (omega (arith, vr.small))
              (mark_received-IsValid n (filled-IsValid bytes vr)).no_minus_one,
        )

    recv_splice_lem :
        (errno : ℕ) (len : ℤ)
        → asked len ≡ n
        → recv_splice errno rx tx len ≡ record {
          rc = pos n;
          errno = errno;
          ring_rx = mark_received (filled bytes vr) n;
          ring_tx = moved_tx;
        }
    unfolding recv_splice
    recv_splice_lem errno len e =
        rw
          (
            splice_len_lem len,
            e,
            splice_part_lem errno rx tx rx.vector_rx.first.iov_base head_len vt
                (omega (arith, whole)),
            splice_part_lem errno
                (record rx {
                  mem = copy_in rx.mem rx.vector_rx.first.iov_base (recv_bytes tx head_len);
                })
                (mark_sent tx head_len) rx.vector_rx.second.iov_base tail_len
                (mark_sent-IsValid head_len vt) tail_fits,
            copied,
          )
          (splice_end_lem errno)

  recv_splice_refines :
      (errno : ℕ) (len : ℤ)
      → let out = recv_splice errno rx tx len in
        (contents out.ring_rx ≡ contents rx ++ take (asked len) (contents tx))
        × (contents out.ring_tx ≡ drop (asked len) (contents tx))
        × (out.rc ≡ pos (asked len))
        × (out.errno ≡ errno)
        × IsValid out.ring_rx
        × IsValid out.ring_tx
  recv_splice_refines errno len =
      let n = asked len in
      let fits : (n ≤ rx.buf_len - rx.tx_len) × (n ≤ tx.tx_len) = asked_fits len in
      rw (recv_splice_lem n fits.0 fits.1 errno len refl) (
        contents-copied n fits.0 fits.1,
        contents-moved_tx n fits.0 fits.1,
        refl,
        refl,
        mark_received-IsValid n (filled-IsValid (take n (contents tx)) vr),
        mark_sent-IsValid _ (mark_sent-IsValid _ vt),
      )

  -- The flags that `vk_vectoring_splice` sets compare the number of bytes moved with the room and
  -- the bytes that are left after the move; the rest is that of `vk_vectoring_recv_splice`.
  splice_blocked :
      (errno : ℕ) (len : ℤ)
      → let out = splice errno rx tx len in
        let n = asked len in
        (out.rc ≡ pos n)
        × (out.ring_rx.rx_blocked ≡ ltb n (rx.buf_len - rx.tx_len - n))
        × (out.ring_tx.tx_blocked ≡ ltb n (tx.tx_len - n))
  unfolding splice
  splice_blocked errno len =
      let fits = asked_fits len in
      let size : to_size (pos (asked len)) ≡ asked len = omega (arith, fits, vr.small) in
      rw
        (
          recv_splice_lem (asked len) fits.0 fits.1 errno len refl,
          rx_left (asked len) fits.0 fits.1,
          tx_left (asked len) fits.0 fits.1,
          size,
        )
        (refl, refl, refl)

  -- `vk_vectoring_splice` moves bytes from the front of one ring to the end of the other: as many
  -- as there are, there is room for and `len` allows, `len` below 0 allowing all. It returns their
  -- number, keeps `errno`, and leaves both rings valid.
  pub splice_refines :
      (errno : ℕ) (len : ℤ)
      → let out = splice errno rx tx len in
        (contents out.ring_rx ≡ contents rx ++ take (asked len) (contents tx))
        × (contents out.ring_tx ≡ drop (asked len) (contents tx))
        × (out.rc ≡ pos (asked len))
        × (out.errno ≡ errno)
        × IsValid out.ring_rx
        × IsValid out.ring_tx
  unfolding splice contents tx_pos
  splice_refines errno len =
      let (got, left, rc, kept, vr', vt') = recv_splice_refines errno len in
      (got, left, rc, kept, set_rx_blocked-IsValid _ vr', set_tx_blocked-IsValid _ vt')
