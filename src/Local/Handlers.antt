-- ===== src/Local/Handlers.antt =====
-- The blocking operations of a socket: vk_socket_handle_* and vk_socket_handler. What the system
-- calls of one operation do is an argument; each is made once at most, and closing again once more.
use mnvkd.Base.{
  ℕ, ◌+◌, ℤ, minus_one, is_minus_one, Bool, true, false, not, ◌&&◌, if◌then◌else◌, einval,
}
use mnvkd.Vectoring.State.{mark_eof, mark_closed}
use mnvkd.Vectoring.Transfer.{Result, splice, forwardhup}
use mnvkd.Vectoring.Syscalls.{ReadResult, CallResult, read, write, accept, shut}
use mnvkd.Socket.{
  PipeRef, os_fd, vk_rx, vk_tx, is_listen, Op, op_none, op_read, op_write, op_forward, op_flush,
  op_hup, op_readhup, op_tx_close, op_rx_close, op_rx_shutdown, op_tx_shutdown, op_readable,
  op_writable, handle_readable, handle_writable, socket_empty_tx,
}
use mnvkd.Local.State.{Local, put_socket, through}
use mnvkd.Local.Queues.{enqueue_run}
use mnvkd.Local.Waking.{
  ready_thread, enqueue_read, enqueue_write, enqueue_readwriter, enqueue_writereader, handle_block,
}

pub record Sys : Type 0 where
  pub reading : ReadResult
  pub writing : CallResult
  pub closing : CallResult
  pub closing_again : CallResult
  pub accepted_size : ℕ

-- A handler's result beside the state: whether it is not -1.
abbrev pub Handled : Type 0
Handled = Local × Bool

-- `vk_socket_handle_error`
abbrev pub note_error : Local → ℕ → ℤ → Local
note_error l s rc =
    if is_minus_one rc then put_socket l s (record (l.sockets s) { error = l.errno }) else l

-- What an operation on one of the socket's rings leaves.
unfoldable pub finish_rx : Local → ℕ → Result → Local
finish_rx l s out =
    let l1 = put_socket l s (record (l.sockets s) { rx = out.ring }) in
    note_error (record l1 { errno = out.errno }) s out.rc

unfoldable pub finish_tx : Local → ℕ → Result → Local
finish_tx l s out =
    let l1 = put_socket l s (record (l.sockets s) { tx = out.ring }) in
    note_error (record l1 { errno = out.errno }) s out.rc

-- A read and a write of the descriptor of a pipe.
unfoldable pub read_fd : Sys → Local → ℕ → Local
read_fd sys l s = finish_rx l s (read l.errno (l.sockets s).rx sys.reading)

unfoldable pub accept_fd : Sys → Local → ℕ → Local
accept_fd sys l s = finish_rx l s (accept sys.accepted_size l.errno (l.sockets s).rx sys.reading)

unfoldable pub write_fd : Sys → Local → ℕ → Local
write_fd sys l s = finish_tx l s (write l.errno (l.sockets s).tx sys.writing)

-- A splice from the ring of the writer `p` of the socket's reads.
unfoldable pub splice_in : Local → ℕ → ℕ → Local
splice_in l s p =
    let out = splice l.errno (l.sockets s).rx (l.sockets p).tx minus_one in
    let l1 = put_socket l s (record (l.sockets s) { rx = out.ring_rx }) in
    let l2 = put_socket l1 p (record (l1.sockets p) { tx = out.ring_tx }) in
    note_error (record l2 { errno = out.errno }) s out.rc

-- A splice to the ring of the reader `p` of the socket's writes.
unfoldable pub splice_out : Local → ℕ → ℕ → Local
splice_out l s p =
    let out = splice l.errno (l.sockets p).rx (l.sockets s).tx minus_one in
    let l1 = put_socket l p (record (l.sockets p) { rx = out.ring_rx }) in
    let l2 = put_socket l1 s (record (l1.sockets s) { tx = out.ring_tx }) in
    note_error (record l2 { errno = out.errno }) s out.rc

-- The `default` of a switch on the type of a pipe
abbrev pub invalid : Local → Handled
invalid l = (record l { errno = einval }, false)

abbrev pub blocked_after : Handled → ℕ → Handled
blocked_after (l, good) s = (handle_block l s, good)

abbrev pub read_ref : Sys → Local → ℕ → PipeRef → Handled
read_ref sys l s (os_fd fd) = (
  enqueue_read
      (if is_listen ((l.sockets s).rx_fd).fd_type then accept_fd sys l s else read_fd sys l s) s,
  true,
)
read_ref sys l s (vk_tx peer) =
    (through l peer (λ p. enqueue_readwriter (enqueue_read (splice_in l s p) s) s), true)
read_ref sys l s (vk_rx _) = invalid l

unfoldable pub handle_read : Sys → Local → ℕ → Handled
handle_read sys l s = blocked_after (read_ref sys l s ((l.sockets s).rx_fd).ref) s

abbrev pub write_ref : Sys → Local → ℕ → PipeRef → Handled
write_ref sys l s (os_fd fd) = (enqueue_write (write_fd sys l s) s, true)
write_ref sys l s (vk_rx peer) =
    (through l peer (λ p. enqueue_writereader (enqueue_write (splice_out l s p) s) s), true)
write_ref sys l s (vk_tx _) = invalid l

unfoldable pub handle_write : Sys → Local → ℕ → Handled
handle_write sys l s = blocked_after (write_ref sys l s ((l.sockets s).tx_fd).ref) s

-- The reader of the writes is woken after a forwarding read of a descriptor only where it is blocked,
-- and is queued once more.
abbrev pub wake_blocked_reader : Local → ℕ → ℕ → Local
wake_blocked_reader l s p =
    if (l.sockets p).rx.rx_blocked
    then (let l1 = enqueue_writereader l s in
        through l1 ((l1.sockets p).block.blocked_vk) (λ i. enqueue_run l1 i))
    else l

abbrev pub forward_from_fd : Sys → Local → ℕ → PipeRef → Handled
forward_from_fd sys l s (os_fd fd) = (enqueue_write (write_fd sys l s) s, true)
forward_from_fd sys l s (vk_rx peer) =
    (through l peer (λ p. wake_blocked_reader (enqueue_write (splice_out l s p) s) s p), true)
forward_from_fd sys l s (vk_tx _) = invalid l

-- A switch that fails returns before the blocks are handled.
abbrev pub forwarded : Handled → ℕ → Handled
forwarded (l, true) s = (handle_block l s, true)
forwarded (l, false) s = (l, false)

abbrev pub forward_ref : Sys → Local → ℕ → PipeRef → PipeRef → Handled
forward_ref sys l s (os_fd fd) tx =
    forwarded (forward_from_fd sys (enqueue_read (read_fd sys l s) s) s tx) s
forward_ref sys l s (vk_tx peer) tx =
    forwarded
      (write_ref sys (through l peer (λ p. enqueue_readwriter (enqueue_read (splice_in l s p) s) s))
        s tx)
      s
forward_ref sys l s (vk_rx _) tx = invalid l

unfoldable pub handle_forward : Sys → Local → ℕ → Handled
handle_forward sys l s = forward_ref sys l s ((l.sockets s).rx_fd).ref ((l.sockets s).tx_fd).ref

-- End of file of the writer's ring moves to the socket's own.
unfoldable pub forward_eof : Local → ℕ → ℕ → Local
forward_eof l s p =
    let (rc, ring_tx, ring_rx) = forwardhup (l.sockets p).tx (l.sockets s).rx in
    let l1 = put_socket l p (record (l.sockets p) { tx = ring_tx }) in
    let l2 = put_socket l1 s (record (l1.sockets s) { rx = ring_rx }) in
    if (l.sockets p).tx.eof then enqueue_readwriter (enqueue_read l2 s) s else l2

abbrev pub readhup_ref : Local → ℕ → PipeRef → Handled
readhup_ref l s (os_fd fd) = (enqueue_read l s, true)
readhup_ref l s (vk_tx peer) = (through l peer (λ p. forward_eof l s p), true)
readhup_ref l s (vk_rx _) = invalid l

unfoldable pub handle_readhup : Local → ℕ → Handled
handle_readhup l s = forwarded (readhup_ref l s ((l.sockets s).rx_fd).ref) s

abbrev pub hup_ref : Local → ℕ → PipeRef → Handled
hup_ref l s (os_fd fd) = (enqueue_write l s, true)
hup_ref l s (vk_rx _) =
    (if not (l.sockets s).tx.eof then enqueue_writereader (enqueue_write l s) s else l, true)
hup_ref l s (vk_tx _) = invalid l

unfoldable pub handle_hup : Local → ℕ → Handled
handle_hup l s = forwarded (hup_ref l s ((l.sockets s).tx_fd).ref) s

-- The rings as `vk_vectoring_mark_closed` and `vk_vectoring_mark_eof` leave them
unfoldable pub close_rx : Local → ℕ → Local
close_rx l s = put_socket l s (record (l.sockets s) { rx = (mark_closed (l.sockets s).rx).1 })

unfoldable pub close_tx : Local → ℕ → Local
close_tx l s = put_socket l s (record (l.sockets s) { tx = (mark_closed (l.sockets s).tx).1 })

unfoldable pub eof_tx : Local → ℕ → Local
eof_tx l s = put_socket l s (record (l.sockets s) { tx = (mark_eof (l.sockets s).tx).1 })

-- `vk_vectoring_close` and the two shutdowns, of the descriptor of a pipe
unfoldable pub shut_rx : Sys → Local → ℕ → Local
shut_rx sys l s =
    close_rx (finish_rx l s (shut l.errno (l.sockets s).rx sys.closing sys.closing_again)) s

unfoldable pub shut_tx : Sys → Local → ℕ → Local
shut_tx sys l s =
    close_tx (finish_tx l s (shut l.errno (l.sockets s).tx sys.closing sys.closing_again)) s

-- Each of these ends by handling the block and making the coroutine ready.
abbrev pub ended : Local → ℕ → Handled
ended l s = let l1 = handle_block l s in (ready_thread l1 ((l1.sockets s).block.blocked_vk), true)

abbrev pub tx_close_ref : Sys → Local → ℕ → PipeRef → Local
tx_close_ref sys l s (os_fd fd) = enqueue_write (shut_tx sys l s) s
tx_close_ref sys l s (vk_rx _) = enqueue_writereader (enqueue_write (eof_tx l s) s) s
tx_close_ref sys l s (vk_tx _) = enqueue_writereader (enqueue_write (eof_tx l s) s) s

unfoldable pub handle_tx_close : Sys → Local → ℕ → Handled
handle_tx_close sys l s = ended (tx_close_ref sys l s ((l.sockets s).tx_fd).ref) s

abbrev pub rx_close_ref : Sys → Local → ℕ → PipeRef → Local
rx_close_ref sys l s (os_fd fd) = enqueue_read (shut_rx sys l s) s
rx_close_ref sys l s (vk_rx _) = enqueue_read l s
rx_close_ref sys l s (vk_tx _) = enqueue_read l s

unfoldable pub handle_rx_close : Sys → Local → ℕ → Handled
handle_rx_close sys l s = ended (rx_close_ref sys l s ((l.sockets s).rx_fd).ref) s

abbrev pub tx_shutdown_ref : Sys → Local → ℕ → PipeRef → Local
tx_shutdown_ref sys l s (os_fd fd) = enqueue_write (shut_tx sys l s) s
tx_shutdown_ref sys l s (vk_rx _) = enqueue_write l s
tx_shutdown_ref sys l s (vk_tx _) = enqueue_write l s

unfoldable pub handle_tx_shutdown : Sys → Local → ℕ → Handled
handle_tx_shutdown sys l s = ended (tx_shutdown_ref sys l s ((l.sockets s).tx_fd).ref) s

unfoldable pub handle_rx_shutdown : Sys → Local → ℕ → Handled
handle_rx_shutdown sys l s = ended (rx_close_ref sys l s ((l.sockets s).rx_fd).ref) s

-- After a read that is blocked, what there is to send is flushed.
abbrev pub lazy_flush : Sys → Handled → ℕ → Handled
lazy_flush sys (l, false) s = (l, false)
lazy_flush sys (l, true) s =
    let x = l.sockets s in
    if x.rx.rx_blocked && (not x.tx.tx_blocked && not (socket_empty_tx x))
    then handle_write sys l s
    else (l, true)

abbrev pub handle_op : Sys → Local → ℕ → Op → Handled
handle_op sys l s op_none = (l, true)
handle_op sys l s op_flush = handle_write sys l s
handle_op sys l s op_write = handle_write sys l s
handle_op sys l s op_read = lazy_flush sys (handle_read sys l s) s
handle_op sys l s op_forward = handle_forward sys l s
handle_op sys l s op_hup = handle_hup l s
handle_op sys l s op_readhup = handle_readhup l s
handle_op sys l s op_tx_close = handle_tx_close sys l s
handle_op sys l s op_rx_close = handle_rx_close sys l s
handle_op sys l s op_tx_shutdown = handle_tx_shutdown sys l s
handle_op sys l s op_rx_shutdown = handle_rx_shutdown sys l s
handle_op sys l s op_readable = (put_socket l s (handle_readable (l.sockets s)), true)
handle_op sys l s op_writable = (put_socket l s (handle_writable (l.sockets s)), true)

-- `vk_socket_handler`; `sys` gives what the system calls of each call of it do.
unfoldable pub socket_handler : (ℕ → Sys) → Local → ℕ → Handled
socket_handler sys l s =
    handle_op (sys l.calls) (record l { calls = l.calls + 1 }) s (l.sockets s).block.op
