-- ===== src/Local/Preserve.antt =====
-- Waking, blocking and the handlers of a socket's operations keep the invariant of the process,
-- whatever the system calls do.
use mnvkd.Base.{ℕ, ℤ, not, ◌&&◌, if◌then◌else◌, refl, Option, some, is_negative}
use mnvkd.Thread.{ready, set_raised, proc_err}
use mnvkd.Socket.{
  pipe_get_fd, pipe_get_socket, forward_closed, set_read_block, set_write_block, handle_rx_effect,
  handle_tx_effect,
}
use mnvkd.Local.State.{Local, put_thread, put_socket}
use mnvkd.Local.Queues.{enqueue_run, enqueue_blocked}
use mnvkd.Local.Waking.{
  ready_thread, raise_at, enqueue_socket, enqueue_self, wake, enqueue_otherwriter,
  enqueue_otherreader, enqueue_read, enqueue_write, enqueue_readwriter, enqueue_writereader,
  block_read, block_write, handle_block,
}
use mnvkd.Local.Tracking.{
  IsLocal, if-IsLocal, put_thread-IsLocal, put_socket-IsLocal, through-IsLocal, ready_flag,
  enqueue_run-IsLocal, enqueue_blocked-IsLocal,
}

pub ready_thread-IsLocal : {l : Local} (o : Option ℕ) → IsLocal l → IsLocal (ready_thread l o)
unfolding ready_thread
ready_thread-IsLocal {l} o v =
    through-IsLocal o (λ i. put_thread l i (ready (l.threads i))) v
      (λ i. put_thread-IsLocal i (ready (l.threads i)) (ready_flag (l.threads i)) v)

pub raise_at-IsLocal :
    {l : Local} (i e line : ℕ) (counter : ℤ) → IsLocal l → IsLocal (raise_at l i e line counter)
unfolding raise_at set_raised
raise_at-IsLocal {l} i e line counter v =
    let l1 = put_thread l i (set_raised (l.threads i) e line counter) in
    let l2 = enqueue_run l1 i in
    put_thread-IsLocal i (record (l2.threads i) { status = proc_err }) refl
      (enqueue_run-IsLocal i
        (put_thread-IsLocal i (set_raised (l.threads i) e line counter) refl v))

enqueue_socket-IsLocal : {l : Local} (s : ℕ) → IsLocal l → IsLocal (enqueue_socket l s)
unfolding enqueue_socket
enqueue_socket-IsLocal {l} s v =
    through-IsLocal ((l.sockets s).block.blocked_vk) (λ _. enqueue_blocked l s) v
      (λ _. enqueue_blocked-IsLocal s v)

enqueue_self-IsLocal : {l : Local} (s : ℕ) → IsLocal l → IsLocal (enqueue_self l s)
unfolding enqueue_self
enqueue_self-IsLocal {l} s v = ready_thread-IsLocal ((l.sockets s).block.blocked_vk) v

wake-IsLocal : {l : Local} (o : Option ℕ) → IsLocal l → IsLocal (wake l o)
unfolding wake
wake-IsLocal {l} o v =
    through-IsLocal o (λ i. ready_thread (enqueue_run l i) (some i)) v
      (λ i. ready_thread-IsLocal (some i) (enqueue_run-IsLocal i v))

enqueue_otherwriter-IsLocal : {l : Local} (s : ℕ) → IsLocal l → IsLocal (enqueue_otherwriter l s)
unfolding enqueue_otherwriter
enqueue_otherwriter-IsLocal {l} s v =
    through-IsLocal (pipe_get_socket (l.sockets s).rx_fd)
      (λ p. wake l ((l.sockets p).block.blocked_vk)) v
      (λ p. wake-IsLocal ((l.sockets p).block.blocked_vk) v)

enqueue_otherreader-IsLocal : {l : Local} (s : ℕ) → IsLocal l → IsLocal (enqueue_otherreader l s)
unfolding enqueue_otherreader
enqueue_otherreader-IsLocal {l} s v =
    through-IsLocal (pipe_get_socket (l.sockets s).tx_fd)
      (λ p. wake l ((l.sockets p).block.blocked_vk)) v
      (λ p. wake-IsLocal ((l.sockets p).block.blocked_vk) v)

pub enqueue_read-IsLocal : {l : Local} (s : ℕ) → IsLocal l → IsLocal (enqueue_read l s)
unfolding enqueue_read handle_rx_effect
enqueue_read-IsLocal {l} s v =
    let v1 = put_socket-IsLocal s (handle_rx_effect (l.sockets s)).1 refl v in
    if-IsLocal (handle_rx_effect (l.sockets s)).0 (enqueue_self-IsLocal s v1) v1

pub enqueue_write-IsLocal : {l : Local} (s : ℕ) → IsLocal l → IsLocal (enqueue_write l s)
unfolding enqueue_write handle_tx_effect
enqueue_write-IsLocal {l} s v =
    let v1 = put_socket-IsLocal s (handle_tx_effect (l.sockets s)).1 refl v in
    if-IsLocal (handle_tx_effect (l.sockets s)).0 (enqueue_self-IsLocal s v1) v1

abbrev read_writer : Local → ℕ → ℕ → Local
read_writer l s p =
    let (effect, x) = handle_tx_effect (l.sockets p) in
    let l1 = put_socket l p x in if effect then enqueue_self (enqueue_otherwriter l1 s) s else l1

abbrev write_reader : Local → ℕ → ℕ → Local
write_reader l s p =
    let (effect, x) = handle_rx_effect (l.sockets p) in
    let l1 = put_socket l p x in if effect then enqueue_self (enqueue_otherreader l1 s) s else l1

pub enqueue_readwriter-IsLocal : {l : Local} (s : ℕ) → IsLocal l → IsLocal (enqueue_readwriter l s)
unfolding enqueue_readwriter handle_tx_effect
enqueue_readwriter-IsLocal {l} s v =
    through-IsLocal (pipe_get_socket (l.sockets s).rx_fd) (read_writer l s) v (λ p.
      let v1 = put_socket-IsLocal p (handle_tx_effect (l.sockets p)).1 refl v in
      if-IsLocal (handle_tx_effect (l.sockets p)).0
        (enqueue_self-IsLocal s (enqueue_otherwriter-IsLocal s v1)) v1)

pub enqueue_writereader-IsLocal :
    {l : Local} (s : ℕ) → IsLocal l → IsLocal (enqueue_writereader l s)
unfolding enqueue_writereader handle_rx_effect
enqueue_writereader-IsLocal {l} s v =
    through-IsLocal (pipe_get_socket (l.sockets s).tx_fd) (write_reader l s) v (λ p.
      let v1 = put_socket-IsLocal p (handle_rx_effect (l.sockets p)).1 refl v in
      if-IsLocal (handle_rx_effect (l.sockets p)).0
        (enqueue_self-IsLocal s (enqueue_otherreader-IsLocal s v1)) v1)

block_read-IsLocal : {l : Local} (s : ℕ) → IsLocal l → IsLocal (block_read l s)
unfolding block_read set_read_block
block_read-IsLocal {l} s v =
    let x = l.sockets s in
    let wait = not (is_negative (pipe_get_fd x.rx_fd)) && x.rx.rx_blocked in
    let v1 = put_socket-IsLocal s (set_read_block x wait) refl v in
    if-IsLocal wait (enqueue_socket-IsLocal s v1) v1

block_write-IsLocal : {l : Local} (s : ℕ) → IsLocal l → IsLocal (block_write l s)
unfolding block_write set_write_block
block_write-IsLocal {l} s v =
    let x = l.sockets s in
    let wait = not (is_negative (pipe_get_fd x.tx_fd)) && x.tx.tx_blocked in
    let v1 = put_socket-IsLocal s (set_write_block x wait) refl v in
    if-IsLocal wait (enqueue_socket-IsLocal s v1) v1

pub handle_block-IsLocal : {l : Local} (s : ℕ) → IsLocal l → IsLocal (handle_block l s)
unfolding handle_block forward_closed
handle_block-IsLocal {l} s v =
    block_write-IsLocal s
      (block_read-IsLocal s (put_socket-IsLocal s (forward_closed (l.sockets s)) refl v))
