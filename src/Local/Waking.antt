-- ===== src/Local/Waking.antt =====
-- What wakes a coroutine and what blocks a socket: vk_enqueue_run, vk_raise_at, vk_socket_enqueue_*
-- and vk_socket_handle_block.
use mnvkd.Base.{ℕ, ℤ, not, ◌&&◌, if◌then◌else◌, Option, some, is_negative}
use mnvkd.Thread.{ready, set_raised, proc_err}
use mnvkd.Socket.{
  pipe_get_fd, pipe_get_socket, forward_closed, set_read_block, set_write_block, handle_rx_effect,
  handle_tx_effect,
}
use mnvkd.Local.State.{Local, put_thread, put_socket, through}
use mnvkd.Local.Queues.{enqueue_run, enqueue_blocked}

-- `vk_ready` through a pointer
unfoldable pub ready_thread : Local → Option ℕ → Local
ready_thread l o = through l o (λ i. put_thread l i (ready (l.threads i)))

-- `vk_raise_at`: the coroutine runs next at the end of its function.
unfoldable pub raise_at : Local → ℕ → ℕ → ℕ → ℤ → Local
raise_at l i e line counter =
    let l1 = put_thread l i (set_raised (l.threads i) e line counter) in
    let l2 = enqueue_run l1 i in put_thread l2 i (record (l2.threads i) { status = proc_err })

-- `vk_socket_enqueue_blocked`, which goes through the socket's coroutine to the process
unfoldable pub enqueue_socket : Local → ℕ → Local
enqueue_socket l s = through l ((l.sockets s).block.blocked_vk) (λ _. enqueue_blocked l s)

-- `vk_socket_enqueue_self`
unfoldable pub enqueue_self : Local → ℕ → Local
enqueue_self l s = ready_thread l ((l.sockets s).block.blocked_vk)

-- The coroutine of a socket is queued to run and made ready.
unfoldable pub wake : Local → Option ℕ → Local
wake l o = through l o (λ i. ready_thread (enqueue_run l i) (some i))

-- `vk_socket_enqueue_otherwriter`
unfoldable pub enqueue_otherwriter : Local → ℕ → Local
enqueue_otherwriter l s =
    through l (pipe_get_socket (l.sockets s).rx_fd) (λ p. wake l ((l.sockets p).block.blocked_vk))

-- `vk_socket_enqueue_otherreader`
unfoldable pub enqueue_otherreader : Local → ℕ → Local
enqueue_otherreader l s =
    through l (pipe_get_socket (l.sockets s).tx_fd) (λ p. wake l ((l.sockets p).block.blocked_vk))

unfoldable pub enqueue_read : Local → ℕ → Local
enqueue_read l s =
    let (effect, x) = handle_rx_effect (l.sockets s) in
    let l1 = put_socket l s x in if effect then enqueue_self l1 s else l1

unfoldable pub enqueue_write : Local → ℕ → Local
enqueue_write l s =
    let (effect, x) = handle_tx_effect (l.sockets s) in
    let l1 = put_socket l s x in if effect then enqueue_self l1 s else l1

-- The writer of the socket's reads is woken where its ring has an effect.
unfoldable pub enqueue_readwriter : Local → ℕ → Local
enqueue_readwriter l s = through l (pipe_get_socket (l.sockets s).rx_fd) (λ p.
    let (effect, x) = handle_tx_effect (l.sockets p) in
    let l1 = put_socket l p x in if effect then enqueue_self (enqueue_otherwriter l1 s) s else l1)

unfoldable pub enqueue_writereader : Local → ℕ → Local
enqueue_writereader l s = through l (pipe_get_socket (l.sockets s).tx_fd) (λ p.
    let (effect, x) = handle_rx_effect (l.sockets p) in
    let l1 = put_socket l p x in if effect then enqueue_self (enqueue_otherreader l1 s) s else l1)

-- The two halves of the registration in `vk_socket_handle_block`.
unfoldable pub block_read : Local → ℕ → Local
block_read l s =
    let x = l.sockets s in
    let wait = not (is_negative (pipe_get_fd x.rx_fd)) && x.rx.rx_blocked in
    let l1 = put_socket l s (set_read_block x wait) in if wait then enqueue_socket l1 s else l1

unfoldable pub block_write : Local → ℕ → Local
block_write l s =
    let x = l.sockets s in
    let wait = not (is_negative (pipe_get_fd x.tx_fd)) && x.tx.tx_blocked in
    let l1 = put_socket l s (set_write_block x wait) in if wait then enqueue_socket l1 s else l1

unfoldable pub handle_block : Local → ℕ → Local
handle_block l s = block_write (block_read (put_socket l s (forward_closed (l.sockets s))) s) s
