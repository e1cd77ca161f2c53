-- ===== src/Vectoring/Fifo.antt =====
-- The ring refines a queue of bytes: `recv` takes from its front, `send` appends to its end.
use native.Mathlib.Nat.{mod-lt, mod-eq_of_lt}
use mathlib.Core.List.{append-nil}
use mnvkd.Base.{
  ℕ, ◌+◌, ◌-◌, ◌%◌, ◌<◌, ◌≤◌, ◌≡◌, refl, sym, ◌∙◌, ap, ap₂, min, List, ◌++◌, arith, ltb,
  if◌then◌else◌, length, take, drop, take-min, drop-min, take-append, drop-append, pos, true, false,
  Bool-cases, subst, inl, inr, ◌&&◌, is_minus_one,
}
use mnvkd.Memory.{Mem, tabulate, tabulate_ext, tabulate-add, length-tabulate}
use mnvkd.Vectoring.State.{Vectoring, tx_pos, iovec_sync, rx_cursor, rx_len}
use mnvkd.Vectoring.Transfer.{
  request, gather, scatter, recv, recv_bytes, send, mark_received, mark_sent,
}
use mnvkd.Vectoring.Contents.{
  around, contents, mod_once, gather_lem, scatter_lem, scatter_outside, request_lem,
}
use mnvkd.Vectoring.Valid.{
  IsValid, mark_sent_lem, mark_received_lem, mark_sent-IsValid, mark_received-IsValid, recv_lem,
  commit_lem, rx_cursor_lem, rx_len_lem,
}

-- `vk_vectoring_tx_pos` does not wrap inside the ring.
contents-around :
    {r : Vectoring}
    → IsValid r
    → contents r ≡ tabulate (around r.mem r.buf_len r.tx_cursor) 0 r.tx_len
unfolding contents tx_pos
contents-around {r} v =
    tabulate_ext (tx_pos r) (around r.mem r.buf_len r.tx_cursor) 0 0 r.tx_len
      λ j h. ap (λ n. r.mem (n % r.buf_len)) (omega (arith, v.small, v.cursor_in, v.len_in))

pub length-contents : {r : Vectoring} → IsValid r → length (contents r) ≡ r.tx_len
length-contents {r} v =
    ap length (contents-around v) ∙ length-tabulate (around r.mem r.buf_len r.tx_cursor) 0 r.tx_len

-- Moving the cursor on is starting further on.
around_shift :
    (m : Mem) (cap c k n : ℕ)
    → c < cap
    → k + n ≤ cap
    → tabulate (around m cap ((c + k) % cap)) 0 n ≡ tabulate (around m cap c) k n
around_shift m cap c k n h room =
    tabulate_ext (around m cap ((c + k) % cap)) (around m cap c) 0 k n λ j p. ap m (
      ground (
        arith,
        mod_once (c + k) cap,
        mod_once ((c + k) % cap + (0 + j)) cap,
        mod_once (c + (k + j)) cap,
        mod-eq_of_lt h,
      ))

contents-mark_sent :
    {r : Vectoring} (n : ℕ)
    → IsValid r
    → n ≤ r.tx_len
    → contents (mark_sent r n) ≡ tabulate (around r.mem r.buf_len r.tx_cursor) n (r.tx_len - n)
contents-mark_sent {r} n v h =
    let (len, cursor, same) = mark_sent_lem n v h in
    contents-around (mark_sent-IsValid n v)
    ∙ rw (len, cursor, same.mem, same.buf_len)
        (around_shift r.mem r.buf_len r.tx_cursor n (r.tx_len - n) v.cursor_in
          (omega (arith, v.len_in)))

module _ {r : Vectoring} (n : ℕ) (v : IsValid r) where
  recv_bytes-around :
      recv_bytes r n ≡ tabulate (around r.mem r.buf_len r.tx_cursor) 0 (min n r.tx_len)
  unfolding recv_bytes
  recv_bytes-around =
      ap (λ vs. gather r.mem vs (request vs n)) v.synced_tx
      ∙ gather_lem r.mem r.buf_len r.tx_cursor r.tx_len v.cursor_in v.len_in v.small n

  pub length-recv_bytes : length (recv_bytes r n) ≡ min n r.tx_len
  length-recv_bytes =
      ap length recv_bytes-around
      ∙ length-tabulate (around r.mem r.buf_len r.tx_cursor) 0 (min n r.tx_len)

  -- What is received and what is left make up the contents.
  pub contents-split : contents r ≡ recv_bytes r n ++ contents (mark_sent r (min n r.tx_len))
  contents-split =
      let k = min n r.tx_len in
      let f = around r.mem r.buf_len r.tx_cursor in
      let e : r.tx_len ≡ k + (r.tx_len - k) = omega arith in
      contents-around v
      ∙ ap (λ z. tabulate f 0 z) e
      ∙ tabulate-add f 0 k (r.tx_len - k)
      ∙ ap₂ ◌++◌ (sym recv_bytes-around) (
          ap (λ z. tabulate f z (r.tx_len - k)) (omega arith)
          ∙ sym (contents-mark_sent k v (omega arith)))

  pub recv_bytes-take : recv_bytes r n ≡ take n (contents r)
  recv_bytes-take =
      sym (take-append (recv_bytes r n) _ (min n r.tx_len) (sym length-recv_bytes))
      ∙ ap₂ take (ap (λ z. min n z) (sym (length-contents v))) (sym contents-split)
      ∙ take-min n (contents r)

  pub contents-drop : contents (mark_sent r (min n r.tx_len)) ≡ drop n (contents r)
  contents-drop =
      sym (drop-append (recv_bytes r n) _ (min n r.tx_len) (sym length-recv_bytes))
      ∙ ap₂ drop (ap (λ z. min n z) (sym (length-contents v))) (sym contents-split)
      ∙ drop-min n (contents r)

  -- `vk_vectoring_recv` of `n` bytes hands over the first `n` bytes of the ring, or all of them if
  -- there are fewer, returns their number, keeps `errno`, and leaves a valid ring with the others.
  pub recv_refines :
      (errno : ℕ)
      → let out = recv errno r n in
        (recv_bytes r n ≡ take n (contents r))
        × (contents out.ring ≡ drop n (contents r))
        × (out.rc ≡ pos (min n (length (contents r))))
        × (out.errno ≡ errno)
        × IsValid out.ring
  recv_refines errno =
      rw (recv_lem n v errno, length-contents v)
        (recv_bytes-take, contents-drop, refl, refl, mark_sent-IsValid (min n r.tx_len) v)

ap₄ :
    {A B C D E : Type 0} (f : A → B → C → D → E) {a a' : A} {b b' : B} {c c' : C} {d d' : D}
    → a ≡ a'
    → b ≡ b'
    → c ≡ c'
    → d ≡ d'
    → f a b c d ≡ f a' b' c' d'
ap₄ f p q s t = λ i. f (p i) (q i) (s i) (t i)

-- A place in the filled part, seen from the end of that part.
behind :
    (cap c n j : ℕ)
    → c < cap
    → n ≤ cap
    → j < n
    → (c + (0 + j)) % cap ≡ ((c + n) % cap + (cap - n + j)) % cap
behind cap c n j h k l = ground (
  arith,
  mod_once (c + (0 + j)) cap,
  mod_once (c + n) cap,
  mod_once ((c + n) % cap + (cap - n + j)) cap,
)

-- A ring whose free space has been written to is valid, and holds the same bytes.
module _ {r : Vectoring} (bytes : List ℕ) (v : IsValid r) where
  abbrev pub room : ℕ
  room = r.buf_len - r.tx_len

  unfoldable pub filled_mem : Mem
  filled_mem = scatter r.mem r.vector_rx (request r.vector_rx (length bytes)) bytes

  synced_request : r.vector_rx ≡ iovec_sync r.buf_len ((r.tx_cursor + r.tx_len) % r.buf_len) room
  synced_request = v.synced_rx ∙ ap₂ (iovec_sync r.buf_len) (rx_cursor_lem v) (rx_len_lem v)

  pub request_rx :
      (n : ℕ)
      → let m = min n room in
        let first = min m (r.buf_len - (r.tx_cursor + r.tx_len) % r.buf_len) in
        request r.vector_rx n ≡ (first, m - first)
  request_rx n =
      ap (λ vs. request vs n) synced_request
      ∙ request_lem r.buf_len ((r.tx_cursor + r.tx_len) % r.buf_len) room (mod-lt _ v.positive)
          (omega arith) v.small n

  filled_mem-eq : filled_mem ≡ (
      let vs = iovec_sync r.buf_len ((r.tx_cursor + r.tx_len) % r.buf_len) room in
      scatter r.mem vs (request vs (length bytes)) bytes)
  unfolding filled_mem
  filled_mem-eq = ap (λ vs. scatter r.mem vs (request vs (length bytes)) bytes) synced_request

  -- the bytes that were there before
  old_part :
      tabulate (around filled_mem r.buf_len r.tx_cursor) 0 r.tx_len
      ≡ tabulate (around r.mem r.buf_len r.tx_cursor) 0 r.tx_len
  old_part =
      tabulate_ext (around filled_mem r.buf_len r.tx_cursor) (around r.mem r.buf_len r.tx_cursor) 0
        0 r.tx_len untouched
    where
      untouched :
          (j : ℕ)
          → j < r.tx_len
          → around filled_mem r.buf_len r.tx_cursor (0 + j)
            ≡ around r.mem r.buf_len r.tx_cursor (0 + j)
      untouched j h =
          subst (λ i. filled_mem i ≡ r.mem i)
            (sym (behind r.buf_len r.tx_cursor r.tx_len j v.cursor_in v.len_in h))
            (rw filled_mem-eq (
              scatter_outside r.mem r.buf_len ((r.tx_cursor + r.tx_len) % r.buf_len) room
                (mod-lt _ v.positive) (omega arith) v.small bytes (room + j)
                (omega (arith, v.len_in)) (omega arith)))

  -- the bytes that have come
  new_part :
      tabulate (around filled_mem r.buf_len r.tx_cursor) r.tx_len (min (length bytes) room)
      ≡ take (min (length bytes) room) bytes
  new_part =
      sym (
        around_shift filled_mem r.buf_len r.tx_cursor r.tx_len (min (length bytes) room) v.cursor_in
          (omega (arith, v.len_in)))
      ∙ rw filled_mem-eq (
          scatter_lem r.mem r.buf_len ((r.tx_cursor + r.tx_len) % r.buf_len) room
            (mod-lt _ v.positive) (omega arith) v.small bytes)

  -- the ring after the copy and before the lengths are marked
  unfoldable pub filled : Vectoring
  filled = record r { mem = filled_mem }

  pub filled-IsValid : IsValid filled
  unfolding filled rx_cursor rx_len
  filled-IsValid = record {
    positive = v.positive;
    small = v.small;
    cursor_in = v.cursor_in;
    len_in = v.len_in;
    no_minus_one = v.no_minus_one;
    synced_tx = v.synced_tx;
    synced_rx = v.synced_rx;
  }

  pub contents-received :
      contents (mark_received filled (min (length bytes) room))
      ≡ contents r ++ take (min (length bytes) room) bytes
  unfolding filled
  contents-received =
      let k = min (length bytes) room in
      let f = around filled_mem r.buf_len r.tx_cursor in
      let (len, cursor, same) = mark_received_lem k filled-IsValid (omega arith) in
      contents-around (mark_received-IsValid k filled-IsValid)
      ∙ ap₄ (λ m z c n. tabulate (around m z c) 0 n) same.mem same.buf_len cursor len
      ∙ tabulate-add f 0 r.tx_len k
      ∙ ap₂ ◌++◌ (old_part ∙ sym (contents-around v))
          (ap (λ z. tabulate f z k) (omega arith) ∙ new_part)

  send_lem :
      (errno : ℕ)
      → (ltb 0 (length bytes) && r.eof) ≡ false
      → send errno r bytes ≡ record {
        rc = pos (min (length bytes) room);
        errno = errno;
        ring = mark_received filled (min (length bytes) room);
      }
  unfolding send filled filled_mem
  send_lem errno open_ring =
      let k = min (length bytes) room in
      let lengths = request r.vector_rx (length bytes) in
      let marked = mark_received_lem k filled-IsValid (omega arith) in
      rw open_ring (
        commit_lem errno filled (mark_received filled) lengths.0 lengths.1 k
          (ap (λ (p : ℕ × ℕ). p.0 + p.1) (request_rx (length bytes)) ∙ omega arith)
          (omega (arith, v.small)) (ap is_minus_one marked.2.error ∙ v.no_minus_one))

  send_blocked :
      (errno : ℕ)
      → (ltb 0 (length bytes) && r.eof) ≡ true
      → send errno r bytes ≡ record { rc = pos 0; errno = errno; ring = r }
  unfolding send
  send_blocked errno b = rw b

  -- `vk_vectoring_send` appends to the ring the first bytes of its buffer, as many as there is room
  -- for, returns their number, keeps `errno`, and leaves a valid ring. While end of file is marked it
  -- takes nothing of a buffer that is not empty and returns 0.
  pub send_refines :
      (errno : ℕ)
      → let out = send errno r bytes in
        let blocked = ltb 0 (length bytes) && r.eof in
        let taken = if blocked then 0 else min (length bytes) (r.buf_len - length (contents r)) in
        (contents out.ring ≡ contents r ++ take taken bytes)
        × (out.rc ≡ pos taken)
        × (out.errno ≡ errno)
        × IsValid out.ring
  send_refines errno = elim (Bool-cases (ltb 0 (length bytes) && r.eof)) [
    | inl b ↦ rw (send_blocked errno b, b) (sym (append-nil (contents r)), refl, refl, v)
    | inr o ↦
        rw (send_lem errno o, o, length-contents v)
          (
            contents-received,
            refl,
            refl,
            mark_received-IsValid (min (length bytes) room) filled-IsValid,
          )
  ]
