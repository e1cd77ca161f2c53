-- ===== src/Vectoring/Valid.antt =====
-- The representation invariant of the ring, and its preservation by every operation.
use native.Mathlib.Nat.{mod-lt, mod-eq_of_lt}
use mnvkd.Base.{
  Bool, ℕ, ◌+◌, ◌-◌, ◌%◌, ◌^◌, ◌<◌, ◌≤◌, ◌≡◌, refl, ◌∙◌, ap, min, arith, add_size, pos, false,
  is_minus_one,
}
use mnvkd.Memory.{Mem}
use mnvkd.Vectoring.State.{
  iovec_len, vector_tx_len, vector_rx_len, Vectoring, iovec_sync, rx_cursor, rx_len, sync, init,
  size_return,
}
use mnvkd.Vectoring.Transfer.{guarded, finish, request, recv, mark_received, mark_sent}
use mnvkd.Vectoring.Contents.{request_lem}
use mnvkd.WrapGuard.{wrapguard_add}

-- The cursors lie in the buffer, and both pairs of vectors are those of the cursors.
pub record IsValid (r : Vectoring) : Type 0 where
  pub positive : 0 < r.buf_len
  pub small : r.buf_len < 2 ^ 63
  pub cursor_in : r.tx_cursor < r.buf_len
  pub len_in : r.tx_len ≤ r.buf_len
  pub no_minus_one : is_minus_one r.error ≡ false
  pub synced_tx : r.vector_tx ≡ iovec_sync r.buf_len r.tx_cursor r.tx_len
  pub synced_rx : r.vector_rx ≡ iovec_sync r.buf_len (rx_cursor r) (rx_len r)

-- `rx_cursor` and `rx_len` do not wrap.
pub rx_cursor_lem : {r : Vectoring} → IsValid r → rx_cursor r ≡ (r.tx_cursor + r.tx_len) % r.buf_len
unfolding rx_cursor
rx_cursor_lem {r} v = ap (λ n. n % r.buf_len) (omega arith)

pub rx_cursor-lt : {r : Vectoring} → IsValid r → rx_cursor r < r.buf_len
unfolding rx_cursor
rx_cursor-lt {r} v = mod-lt _ v.positive

pub rx_len_lem : {r : Vectoring} → IsValid r → rx_len r ≡ r.buf_len - r.tx_len
unfolding rx_len
rx_len_lem v = omega arith

iovec_len-sync :
    (cap c n : ℕ) → c < cap → n ≤ cap → cap < 2 ^ 63 → iovec_len (iovec_sync cap c n) ≡ n
unfolding iovec_len iovec_sync
iovec_len-sync cap c n h k small = ground arith

pub vector_tx_len_lem : {r : Vectoring} → IsValid r → vector_tx_len r ≡ r.tx_len
unfolding vector_tx_len
vector_tx_len_lem {r} v =
    ap iovec_len v.synced_tx
    ∙ iovec_len-sync r.buf_len r.tx_cursor r.tx_len v.cursor_in v.len_in v.small

pub vector_rx_len_lem : {r : Vectoring} → IsValid r → vector_rx_len r ≡ r.buf_len - r.tx_len
unfolding vector_rx_len
vector_rx_len_lem {r} v =
    ap iovec_len v.synced_rx
    ∙ iovec_len-sync r.buf_len (rx_cursor r) (rx_len r) (rx_cursor-lt v)
        (omega (arith, rx_len_lem v)) v.small
    ∙ rx_len_lem v

-- A ring made by `init` over a buffer is valid.
pub init-IsValid :
    (old : Vectoring) (m : Mem) (start len : ℕ)
    → 0 < len
    → len < 2 ^ 63
    → IsValid (init old m start len)
unfolding init rx_cursor rx_len
init-IsValid old m start len h k = record {
  positive = h;
  small = k;
  cursor_in = h;
  len_in = omega arith;
  no_minus_one = refl;
  synced_tx = refl;
  synced_rx = refl;
}

pub mark_received-IsValid : {r : Vectoring} (n : ℕ) → IsValid r → IsValid (mark_received r n)
unfolding mark_received sync rx_cursor rx_len
mark_received-IsValid {r} n v = ground (arith, mod-lt (add_size r.tx_len n) v.positive)

pub mark_sent-IsValid : {r : Vectoring} (n : ℕ) → IsValid r → IsValid (mark_sent r n)
unfolding mark_sent sync rx_cursor rx_len
mark_sent-IsValid {r} n v = ground (arith, mod-lt (add_size r.tx_cursor n) v.positive)

-- What a move of bytes leaves alone.
pub record SameRest (r s : Vectoring) : Type 0 where
  pub mem : s.mem ≡ r.mem
  pub buf_start : s.buf_start ≡ r.buf_start
  pub buf_len : s.buf_len ≡ r.buf_len
  pub error : s.error ≡ r.error
  pub eof : s.eof ≡ r.eof
  pub closed : s.closed ≡ r.closed
  pub rx_blocked : s.rx_blocked ≡ r.rx_blocked
  pub tx_blocked : s.tx_blocked ≡ r.tx_blocked

module _ {r : Vectoring} (n : ℕ) (v : IsValid r) where
  pub mark_received_lem :
      n ≤ r.buf_len - r.tx_len
      → ((mark_received r n).tx_len ≡ r.tx_len + n)
        × ((mark_received r n).tx_cursor ≡ r.tx_cursor)
        × SameRest r (mark_received r n)
  unfolding mark_received sync rx_len
  mark_received_lem h = ground (arith, λ (p : r.tx_len + n < r.buf_len). mod-eq_of_lt p)

  pub mark_sent_lem :
      n ≤ r.tx_len
      → ((mark_sent r n).tx_len ≡ r.tx_len - n)
        × ((mark_sent r n).tx_cursor ≡ (r.tx_cursor + n) % r.buf_len)
        × SameRest r (mark_sent r n)
  unfolding mark_sent sync
  mark_sent_lem h = ground (arith, mod-eq_of_lt v.cursor_in)

pub size_return_lem :
    (r : Vectoring) (n : ℕ)
    → n < 2 ^ 63
    → is_minus_one r.error ≡ false
    → size_return r n ≡ (pos n, r)
unfolding size_return
size_return_lem r n h no_error = ground arith

-- The end of `vk_vectoring_recv` and `_send`: the guard passes and the size is returned.
pub commit_lem :
    (errno : ℕ) (before : Vectoring) (mark : ℕ → Vectoring) (a b n : ℕ)
    → a + b ≡ n
    → n < 2 ^ 63
    → is_minus_one (mark n).error ≡ false
    → guarded errno before
        (wrapguard_add a b)
        (finish errno (size_return (mark (add_size a b)) (add_size a b)))
      ≡ record { rc = pos n; errno = errno; ring = mark n }
unfolding guarded finish size_return wrapguard_add
commit_lem errno before mark a b n e h no_error =
    let sum : add_size a b ≡ n = omega arith in rw sum (ground arith)

module _ {r : Vectoring} (n : ℕ) (v : IsValid r) where
  pub request_tx : request r.vector_tx n ≡ (
    min (min n r.tx_len) (r.buf_len - r.tx_cursor),
    min n r.tx_len - min (min n r.tx_len) (r.buf_len - r.tx_cursor),
  )
  request_tx =
      ap (λ vs. request vs n) v.synced_tx
      ∙ request_lem r.buf_len r.tx_cursor r.tx_len v.cursor_in v.len_in v.small n

  -- `vk_vectoring_recv` succeeds, with as many bytes as there are and are asked for.
  pub recv_lem :
      (errno : ℕ)
      → recv errno r n
        ≡ record { rc = pos (min n r.tx_len); errno = errno; ring = mark_sent r (min n r.tx_len) }
  unfolding recv
  recv_lem errno = rw request_tx (
      commit_lem errno r (mark_sent r) _ _ (min n r.tx_len) (omega arith)
        (omega (arith, v.len_in, v.small)) (ground (arith, mark_sent_lem (min n r.tx_len) v)))

-- The flags are no part of the invariant.
module _ {r : Vectoring} (b : Bool) (v : IsValid r) where
  pub set_rx_blocked-IsValid : IsValid (record r { rx_blocked = b })
  unfolding rx_cursor rx_len
  set_rx_blocked-IsValid = ground arith

  pub set_tx_blocked-IsValid : IsValid (record r { tx_blocked = b })
  unfolding rx_cursor rx_len
  set_tx_blocked-IsValid = ground arith
