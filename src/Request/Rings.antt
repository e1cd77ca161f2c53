-- ===== src/Request/Rings.antt =====
-- vk_io_op.c: the bytes that a request made from a ring names.
use mnvkd.Base.{
  ℕ, ◌≤◌, ◌<◌, ◌^◌, min, take, ◌++◌, List, false, ltb, ◌==◌, ==_iff, subst, if◌then◌else◌, ◌≡◌,
  refl, sym, ap, ◌∙◌, ◌⊎◌, inl, inr, arith, Bool-cases, pos, to_size, ap₂, take-take, ok, fail,
  eagain, Checked, if_true, if_false, add_size,
}
use mnvkd.Memory.{Mem}
use mnvkd.Vectoring.State.{Vectoring, Vectors, iovec_sync}
use mnvkd.Vectoring.Transfer.{signed_sent, mark_sent, gather, request, recv_bytes}
use mnvkd.Vectoring.Contents.{contents}
use mnvkd.Vectoring.Valid.{IsValid}
use mnvkd.Vectoring.Fifo.{recv_bytes-take, contents-split}
use mnvkd.Request.{Request, as_size, apply_tx, lengths, with_parts, from_vectors, from_tx_ring}

-- The bytes that two vectors name.
abbrev pub named : Mem → Vectors → List ℕ
named m vs = gather m vs (vs.first.iov_len, vs.second.iov_len)

-- The bytes that are asked for, 0 being all of them.
abbrev pub wanted : Vectoring → ℕ → ℕ
wanted r max_len = if ltb 0 max_len then max_len else r.tx_len

-- What the vectors of a span hold, and how a request of `need` bytes is split.
module _ (cap c n : ℕ) (h : c < cap) (k : n ≤ cap) (small : cap < 2 ^ 31) where
  total_lem :
      let vs = iovec_sync cap c n in
      add_size (as_size vs.first.iov_len) (as_size vs.second.iov_len) ≡ n
  unfolding iovec_sync
  total_lem = ground arith

  lengths-request :
      (need : ℕ) → lengths (iovec_sync cap c n) need ≡ request (iovec_sync cap c n) need
  unfolding request iovec_sync
  lengths-request need = ground arith

  request_total :
      (need : ℕ) → let ls = request (iovec_sync cap c n) need in add_size ls.0 ls.1 ≡ min need n
  unfolding request iovec_sync
  request_total need = ground arith

from_vectors-ok :
    (op : Request) (vs : Vectors) (max_len n : ℕ)
    → add_size (as_size vs.first.iov_len) (as_size vs.second.iov_len) ≡ n
    → (n == 0) ≡ false
    → from_vectors op vs max_len
      ≡ ok (with_parts op vs (lengths vs (if ltb 0 max_len then max_len else n)))
unfolding from_vectors
from_vectors-ok op vs max_len n total e = rw (total, e) refl

from_vectors-fail :
    (op : Request) (vs : Vectors) (max_len : ℕ)
    → add_size (as_size vs.first.iov_len) (as_size vs.second.iov_len) ≡ 0
    → from_vectors op vs max_len ≡ fail eagain
unfolding from_vectors
from_vectors-fail op vs max_len total = rw total refl

-- The bytes that a request names, and its length.
abbrev pub view : Mem → Checked Request → Checked (List ℕ × ℕ)
view m (fail e) = fail e
view m (ok o) = ok (named m o.iov, o.len)

module _ (op : Request) {r : Vectoring} (v : IsValid r) (max_len : ℕ)
    (small : r.buf_len < 2 ^ 31) where
  total :
      add_size (as_size r.vector_tx.first.iov_len) (as_size r.vector_tx.second.iov_len) ≡ r.tx_len
  total =
      ap (λ vs. add_size (as_size vs.first.iov_len) (as_size vs.second.iov_len)) v.synced_tx
      ∙ total_lem r.buf_len r.tx_cursor r.tx_len v.cursor_in v.len_in small

  parts : (need : ℕ) → lengths r.vector_tx need ≡ request r.vector_tx need
  parts need =
      subst (λ vs. lengths vs need ≡ request vs need) (sym v.synced_tx)
        (lengths-request r.buf_len r.tx_cursor r.tx_len v.cursor_in v.len_in small need)

  size : (need : ℕ) → let ls = request r.vector_tx need in add_size ls.0 ls.1 ≡ min need r.tx_len
  size need =
      subst (λ vs. let ls = request vs need in add_size ls.0 ls.1 ≡ min need r.tx_len)
        (sym v.synced_tx)
        (request_total r.buf_len r.tx_cursor r.tx_len v.cursor_in v.len_in small need)

  bytes :
      (need : ℕ)
      → named r.mem (with_parts op r.vector_tx (request r.vector_tx need)).iov ≡ recv_bytes r need
  unfolding recv_bytes gather
  bytes need = refl

  from_tx_ring_cases :
      ((r.tx_len ≡ 0) × (from_tx_ring op r max_len ≡ fail eagain))
      ⊎ ((o : Request) × ((r.tx_len == 0) ≡ false)
          × (from_tx_ring op r max_len ≡ ok o)
          × (named r.mem o.iov ≡ take (wanted r max_len) (contents r))
          × (o.len ≡ min (wanted r max_len) r.tx_len))
  unfolding from_tx_ring
  from_tx_ring_cases = elim (Bool-cases (r.tx_len == 0)) [
    | inl e ↦
        let none_left : r.tx_len ≡ 0 = (==_iff r.tx_len 0).0 e in
        inl (none_left, from_vectors-fail op r.vector_tx max_len (total ∙ none_left))
    | inr e ↦
        let need = wanted r max_len in
        inr (
          with_parts op r.vector_tx (request r.vector_tx need),
          e,
          from_vectors-ok op r.vector_tx max_len r.tx_len total e
              ∙ ap (λ ls. ok (with_parts op r.vector_tx ls)) (parts need),
          bytes need ∙ recv_bytes-take need v,
          size need,
        )
  ]

  -- A request that is made of the bytes to send of a ring fails with EAGAIN exactly where there is
  -- none, and else names the first `max_len` of them, or all where `max_len` is 0 or more than there
  -- are, and has their number for its length: for a valid ring of less than 2 ^ 31 bytes.
  pub from_tx_ring_lem : view r.mem (from_tx_ring op r max_len) ≡ (
      if r.tx_len == 0
      then fail eagain
      else ok (take (wanted r max_len) (contents r), min (wanted r max_len) r.tx_len))
  from_tx_ring_lem = elim from_tx_ring_cases [
    | inl (none_left, failed) ↦
        ap (view r.mem) failed ∙ sym (if_true (r.tx_len == 0) _ _ ((==_iff r.tx_len 0).1 none_left))
    | inr (o, some_left, made, named_is, len_is) ↦
        ap (view r.mem) made
        ∙ (ap₂ (λ a b. ok (a, b)) named_is len_is ∙ sym (if_false (r.tx_len == 0) _ _ some_left))
  ]

  -- What a call takes from the front of the bytes of a request made from a ring, and what is in the
  -- ring once that is applied, make up what was in the ring: for a valid ring of less than 2 ^ 31
  -- bytes, and no more bytes than the request has.
  pub apply_tx-named :
      (o : Request) (n errno : ℕ)
      → from_tx_ring op r max_len ≡ ok o
      → n ≤ o.len
      → take n (named r.mem o.iov) ++ contents ((apply_tx errno r o (pos n)).1) ≡ contents r
  unfolding apply_tx signed_sent
  apply_tx-named o n errno made h = elim from_tx_ring_cases [
    | inl (_, failed) ↦ absurd (cc (made, failed))
    | inr (o', _, made', named', len') ↦
        let same : o' ≡ o = cc (made, made') in
        let need = wanted r max_len in
        let few : n ≤ need = omega (arith, ap (λ x. x.len) same, len') in
        let fits : n ≤ r.tx_len = omega (arith, ap (λ x. x.len) same, len') in
        let size_is : to_size (pos n) ≡ min n r.tx_len = omega (arith, v.small, v.len_in, fits) in
        let bytes_are : take n (named r.mem o.iov) ≡ recv_bytes r n =
          ap (λ x. take n (named r.mem x.iov)) (sym same)
          ∙ ap (take n) named'
          ∙ take-take n need (contents r) few
          ∙ sym (recv_bytes-take n v) in
        ap₂ ◌++◌ bytes_are (ap (λ k. contents (mark_sent r k)) size_is) ∙ sym (contents-split n v)
  ]
