-- ===== src/Vectoring/State.antt =====
-- `struct vk_vectoring`, its pair of vectors for each side, its cursors and its flags.
-- A pointer into the buffer is an offset from `buf_start`; the bytes at `buf_start` are `mem`.
use mnvkd.Base.{
  ℕ, ◌+◌, ◌%◌, Bool, true, false, not, ◌&&◌, ◌||◌, ltb, leb, ◌==◌, if◌then◌else◌, ℤ, pos, minus_one,
  is_minus_one, is_zero, add_size, sub_size, to_ssize, to_size, einval,
}
use mnvkd.Memory.{Mem}

-- `iov_base`: an offset into the buffer, or the string literal "" of an unused second vector.
pub data Base : Type 0 where
  at : ℕ → Base
  literal : Base

-- `struct iovec`
pub record Iovec : Type 0 where
  pub iov_base : Base
  pub iov_len : ℕ

-- `struct iovec vectors[2]`
pub record Vectors : Type 0 where
  pub first : Iovec
  pub second : Iovec

-- An `int` that is only a flag is a Boolean; `error` is an errno value, compared with -1.
pub record Vectoring : Type 0 where
  pub mem : Mem
  pub buf_start : ℕ
  pub buf_len : ℕ
  pub tx_cursor : ℕ
  pub tx_len : ℕ
  pub vector_tx : Vectors
  pub vector_rx : Vectors
  pub error : ℤ
  pub eof : Bool
  pub closed : Bool
  pub rx_blocked : Bool
  pub tx_blocked : Bool
  pub effect : Bool

unfoldable pub rx_cursor : Vectoring → ℕ
rx_cursor r = add_size r.tx_cursor r.tx_len % r.buf_len

unfoldable pub rx_len : Vectoring → ℕ
rx_len r = sub_size r.buf_len r.tx_len

unfoldable pub tx_pos : Vectoring → ℕ → ℕ
tx_pos r p = r.mem (add_size r.tx_cursor p % r.buf_len)

unfoldable pub rx_pos : Vectoring → ℕ → ℕ
unfolding rx_cursor
rx_pos r p = r.mem (add_size (rx_cursor r) p % r.buf_len)

-- `vk_iovec_sync`: the part of the buffer from `cursor` on, and the part that wraps.
unfoldable pub iovec_sync : ℕ → ℕ → ℕ → Vectors
iovec_sync buf_len cursor len =
    if ltb buf_len (add_size cursor len)
    then (record {
      first = record { iov_base = at cursor; iov_len = sub_size buf_len cursor };
      second = record { iov_base = at 0; iov_len = sub_size len (sub_size buf_len cursor) };
    })
    else (record {
      first = record { iov_base = at cursor; iov_len = len };
      second = record { iov_base = literal; iov_len = 0 };
    })

unfoldable pub sync_tx : Vectoring → Vectoring
sync_tx r = record r { vector_tx = iovec_sync r.buf_len r.tx_cursor r.tx_len }

unfoldable pub sync_rx : Vectoring → Vectoring
sync_rx r = record r { vector_rx = iovec_sync r.buf_len (rx_cursor r) (rx_len r) }

unfoldable pub sync : Vectoring → Vectoring
unfolding sync_tx sync_rx
sync r = sync_tx (sync_rx r)

-- `vk_vectoring_init` over whatever the struct held: `closed` keeps its old value.
unfoldable pub init : Vectoring → Mem → ℕ → ℕ → Vectoring
unfolding sync
init r mem start len =
    record (sync
      (record r { mem = mem; buf_start = start; buf_len = len; tx_cursor = 0; tx_len = 0 })) {
        error = pos 0;
        eof = false;
        rx_blocked = false;
        tx_blocked = false;
        effect = false;
      }

-- `vk_vectoring_validate`, where the literal "" stands at address `lit`.
unfoldable pub address : ℕ → Vectoring → Base → ℕ
address lit r (at off) = r.buf_start + off
address lit r literal = lit

unfoldable pub vector_within : ℕ → Vectoring → Iovec → Bool
unfolding address
vector_within lit r v =
    ltb r.buf_start (address lit r v.iov_base)
    && leb (address lit r v.iov_base + v.iov_len) (r.buf_start + r.buf_len)

unfoldable pub vectors_within : ℕ → Vectoring → Vectors → Bool
unfolding vector_within
vectors_within lit r vs = vector_within lit r vs.first && vector_within lit r vs.second

unfoldable pub validate : ℕ → Vectoring → Vectoring
unfolding vectors_within
validate lit r =
    if not (vectors_within lit r r.vector_rx) || not (vectors_within lit r r.vector_tx)
    then record r { error = pos einval }
    else r

unfoldable pub iovec_len : Vectors → ℕ
iovec_len vs = add_size vs.first.iov_len vs.second.iov_len

unfoldable pub vector_tx_len : Vectoring → ℕ
unfolding iovec_len
vector_tx_len r = iovec_len r.vector_tx

unfoldable pub vector_rx_len : Vectoring → ℕ
unfolding iovec_len
vector_rx_len r = iovec_len r.vector_rx

unfoldable pub is_empty : Vectoring → Bool
unfolding vector_tx_len
is_empty r = vector_tx_len r == 0

unfoldable pub has_nodata : Vectoring → Bool
unfolding is_empty
has_nodata r = r.eof && is_empty r

unfoldable pub set_rx_blocked : Vectoring → Bool → Vectoring
set_rx_blocked r b = record r { rx_blocked = b }

unfoldable pub set_tx_blocked : Vectoring → Bool → Vectoring
set_tx_blocked r b = record r { tx_blocked = b }

unfoldable pub trigger_effect : Vectoring → Vectoring
trigger_effect r = record r { effect = true }

unfoldable pub clear_effect : Vectoring → Vectoring
clear_effect r = record r { effect = false }

unfoldable pub handle_effect : Vectoring → Bool × Vectoring
handle_effect r = if r.effect then (true, record r { effect = false }) else (false, r)

unfoldable pub clear_error : Vectoring → Vectoring
clear_error r = if is_zero r.error then r else record r { error = pos 0; effect = true }

unfoldable pub clear_eof : Vectoring → Vectoring
clear_eof r = if r.eof then record r { eof = false; effect = true } else r

-- The first argument is the value of `errno`.
unfoldable pub set_error : ℕ → Vectoring → Vectoring
set_error errno r = set_error_from r.error
  where
    set_error_from : ℤ → Vectoring
    set_error_from (pos n) = if n == errno then r else record r { error = pos errno; effect = true }
    set_error_from _ = record r { error = pos errno; effect = true }

unfoldable pub mark_eof : Vectoring → Bool × Vectoring
mark_eof r = if r.eof then (false, r) else (true, record r { effect = true; eof = true })

unfoldable pub mark_closed : Vectoring → Bool × Vectoring
mark_closed r = if r.closed then (false, r) else (true, record r { effect = true; closed = true })

-- `vk_size_return`: the size as an `ssize_t`, or -1.
unfoldable pub size_return : Vectoring → ℕ → ℤ × Vectoring
size_return r size =
    if is_minus_one r.error
    then (minus_one, r)
    else (if size == to_size (to_ssize size)
        then (to_ssize size, r)
        else (minus_one, record r { error = pos einval }))

-- `vk_void_return`
unfoldable pub void_return : Vectoring → ℤ
void_return r = if is_zero r.error then pos 0 else minus_one
