-- ===== src/Local/Handling.antt =====
-- The operations of a socket keep the invariant of the process, whatever their system calls do.
use mnvkd.Base.{
  ℕ, ◌+◌, ℤ, minus_one, is_minus_one, Bool, true, false, not, ◌&&◌, if◌then◌else◌, refl, ◌≡◌,
  Option,
}
use mnvkd.Vectoring.State.{Vectoring, mark_eof, mark_closed}
use mnvkd.Vectoring.Transfer.{Result, splice, forwardhup}
use mnvkd.Vectoring.Syscalls.{read, write, accept, shut}
use mnvkd.Socket.{
  Socket, PipeRef, os_fd, vk_rx, vk_tx, is_listen, Op, op_none, op_read, op_write, op_forward,
  op_flush, op_hup, op_readhup, op_tx_close, op_rx_close, op_rx_shutdown, op_tx_shutdown,
  op_readable, op_writable, handle_readable, handle_writable, socket_empty_tx, set_read_block,
  set_write_block,
}
use mnvkd.Local.State.{Local, put_socket, through}
use mnvkd.Local.Queues.{enqueue_run}
use mnvkd.Local.Waking.{
  enqueue_read, enqueue_write, enqueue_readwriter, enqueue_writereader, handle_block,
}
use mnvkd.Local.Handlers.{
  Sys, Handled, note_error, finish_rx, finish_tx, read_fd, accept_fd, write_fd, splice_in,
  splice_out, read_ref, handle_read, write_ref, handle_write, wake_blocked_reader, forward_from_fd,
  forwarded, forward_ref, handle_forward, forward_eof, readhup_ref, handle_readhup, hup_ref,
  handle_hup, close_rx, close_tx, eof_tx, shut_rx, shut_tx, ended, tx_close_ref, handle_tx_close,
  rx_close_ref, handle_rx_close, tx_shutdown_ref, handle_tx_shutdown, handle_rx_shutdown,
  lazy_flush, handle_op, socket_handler,
}
use mnvkd.Local.Tracking.{
  IsLocal, if-IsLocal, put_socket-IsLocal, through-IsLocal, enqueue_run-IsLocal,
}
use mnvkd.Local.Preserve.{
  ready_thread-IsLocal, enqueue_read-IsLocal, enqueue_write-IsLocal, enqueue_readwriter-IsLocal,
  enqueue_writereader-IsLocal, handle_block-IsLocal,
}

-- The fields that the queues do not speak of.
pub errno-IsLocal : {l : Local} (e : ℕ) → IsLocal l → IsLocal (record l { errno = e })
errno-IsLocal e v = record {
  runs = v.runs;
  blocks = v.blocks;
  run_says = v.run_says;
  blocked_says = v.blocked_says;
}

calls-IsLocal : {l : Local} (n : ℕ) → IsLocal l → IsLocal (record l { calls = n })
calls-IsLocal n v = record {
  runs = v.runs;
  blocks = v.blocks;
  run_says = v.run_says;
  blocked_says = v.blocked_says;
}

-- A write of one ring of a socket keeps its flag.
put_rx-IsLocal :
    {l : Local} (s : ℕ) (r : Vectoring)
    → IsLocal l
    → IsLocal (put_socket l s (record (l.sockets s) { rx = r }))
put_rx-IsLocal {l} s r v = put_socket-IsLocal s (record (l.sockets s) { rx = r }) refl v

put_tx-IsLocal :
    {l : Local} (s : ℕ) (r : Vectoring)
    → IsLocal l
    → IsLocal (put_socket l s (record (l.sockets s) { tx = r }))
put_tx-IsLocal {l} s r v = put_socket-IsLocal s (record (l.sockets s) { tx = r }) refl v

note_error-IsLocal : {l : Local} (s : ℕ) (rc : ℤ) → IsLocal l → IsLocal (note_error l s rc)
note_error-IsLocal {l} s rc v =
    if-IsLocal (is_minus_one rc)
      (put_socket-IsLocal s (record (l.sockets s) { error = l.errno }) refl v) v

finish_rx-IsLocal : {l : Local} (s : ℕ) (out : Result) → IsLocal l → IsLocal (finish_rx l s out)
unfolding finish_rx
finish_rx-IsLocal s out v =
    note_error-IsLocal s out.rc (errno-IsLocal out.errno (put_rx-IsLocal s out.ring v))

finish_tx-IsLocal : {l : Local} (s : ℕ) (out : Result) → IsLocal l → IsLocal (finish_tx l s out)
unfolding finish_tx
finish_tx-IsLocal s out v =
    note_error-IsLocal s out.rc (errno-IsLocal out.errno (put_tx-IsLocal s out.ring v))

-- The operations on the rings.
module _ (sys : Sys) {l : Local} (s : ℕ) (v : IsLocal l) where
  read_fd-IsLocal : IsLocal (read_fd sys l s)
  unfolding read_fd
  read_fd-IsLocal = finish_rx-IsLocal s (read l.errno (l.sockets s).rx sys.reading) v

  accept_fd-IsLocal : IsLocal (accept_fd sys l s)
  unfolding accept_fd
  accept_fd-IsLocal =
      finish_rx-IsLocal s (accept sys.accepted_size l.errno (l.sockets s).rx sys.reading) v

  write_fd-IsLocal : IsLocal (write_fd sys l s)
  unfolding write_fd
  write_fd-IsLocal = finish_tx-IsLocal s (write l.errno (l.sockets s).tx sys.writing) v

  shut_rx-IsLocal : IsLocal (shut_rx sys l s)
  unfolding shut_rx close_rx
  shut_rx-IsLocal =
      let l1 = finish_rx l s (shut l.errno (l.sockets s).rx sys.closing sys.closing_again) in
      put_rx-IsLocal s (mark_closed (l1.sockets s).rx).1
        (finish_rx-IsLocal s (shut l.errno (l.sockets s).rx sys.closing sys.closing_again) v)

  shut_tx-IsLocal : IsLocal (shut_tx sys l s)
  unfolding shut_tx close_tx
  shut_tx-IsLocal =
      let l1 = finish_tx l s (shut l.errno (l.sockets s).tx sys.closing sys.closing_again) in
      put_tx-IsLocal s (mark_closed (l1.sockets s).tx).1
        (finish_tx-IsLocal s (shut l.errno (l.sockets s).tx sys.closing sys.closing_again) v)

eof_tx-IsLocal : {l : Local} (s : ℕ) → IsLocal l → IsLocal (eof_tx l s)
unfolding eof_tx
eof_tx-IsLocal {l} s v = put_tx-IsLocal s (mark_eof (l.sockets s).tx).1 v

splice_in-IsLocal : {l : Local} (s p : ℕ) → IsLocal l → IsLocal (splice_in l s p)
unfolding splice_in
splice_in-IsLocal {l} s p v =
    let out = splice l.errno (l.sockets s).rx (l.sockets p).tx minus_one in
    note_error-IsLocal s out.rc
      (errno-IsLocal out.errno (put_tx-IsLocal p out.ring_tx (put_rx-IsLocal s out.ring_rx v)))

splice_out-IsLocal : {l : Local} (s p : ℕ) → IsLocal l → IsLocal (splice_out l s p)
unfolding splice_out
splice_out-IsLocal {l} s p v =
    let out = splice l.errno (l.sockets p).rx (l.sockets s).tx minus_one in
    note_error-IsLocal s out.rc
      (errno-IsLocal out.errno (put_tx-IsLocal s out.ring_tx (put_rx-IsLocal p out.ring_rx v)))

read_in-IsLocal :
    {l : Local} (s : ℕ) (peer : Option ℕ)
    → IsLocal l
    → IsLocal (through l peer (λ p. enqueue_readwriter (enqueue_read (splice_in l s p) s) s))
read_in-IsLocal {l} s peer v =
    through-IsLocal peer (λ p. enqueue_readwriter (enqueue_read (splice_in l s p) s) s) v
      (λ p. enqueue_readwriter-IsLocal s (enqueue_read-IsLocal s (splice_in-IsLocal s p v)))

read_ref-IsLocal :
    (sys : Sys) {l : Local} (s : ℕ) (r : PipeRef) → IsLocal l → IsLocal (read_ref sys l s r).0
read_ref-IsLocal sys {l} s (os_fd fd) v = enqueue_read-IsLocal s (
    if-IsLocal (is_listen ((l.sockets s).rx_fd).fd_type) (accept_fd-IsLocal sys s v)
      (read_fd-IsLocal sys s v))
read_ref-IsLocal sys s (vk_tx peer) v = read_in-IsLocal s peer v
read_ref-IsLocal sys s (vk_rx _) v = errno-IsLocal _ v

handle_read-IsLocal : (sys : Sys) {l : Local} (s : ℕ) → IsLocal l → IsLocal (handle_read sys l s).0
unfolding handle_read
handle_read-IsLocal sys {l} s v =
    handle_block-IsLocal s (read_ref-IsLocal sys s ((l.sockets s).rx_fd).ref v)

write_ref-IsLocal :
    (sys : Sys) {l : Local} (s : ℕ) (r : PipeRef) → IsLocal l → IsLocal (write_ref sys l s r).0
write_ref-IsLocal sys s (os_fd fd) v = enqueue_write-IsLocal s (write_fd-IsLocal sys s v)
write_ref-IsLocal sys {l} s (vk_rx peer) v =
    through-IsLocal peer (λ p. enqueue_writereader (enqueue_write (splice_out l s p) s) s) v
      (λ p. enqueue_writereader-IsLocal s (enqueue_write-IsLocal s (splice_out-IsLocal s p v)))
write_ref-IsLocal sys s (vk_tx _) v = errno-IsLocal _ v

handle_write-IsLocal :
    (sys : Sys) {l : Local} (s : ℕ) → IsLocal l → IsLocal (handle_write sys l s).0
unfolding handle_write
handle_write-IsLocal sys {l} s v =
    handle_block-IsLocal s (write_ref-IsLocal sys s ((l.sockets s).tx_fd).ref v)

wake_blocked_reader-IsLocal :
    {l : Local} (s p : ℕ) → IsLocal l → IsLocal (wake_blocked_reader l s p)
wake_blocked_reader-IsLocal {l} s p v =
    let l1 = enqueue_writereader l s in
    let v1 = enqueue_writereader-IsLocal s v in
    if-IsLocal (l.sockets p).rx.rx_blocked
      (through-IsLocal ((l1.sockets p).block.blocked_vk) (λ i. enqueue_run l1 i) v1
        (λ i. enqueue_run-IsLocal i v1))
      v

forward_from_fd-IsLocal :
    (sys : Sys) {l : Local} (s : ℕ) (r : PipeRef)
    → IsLocal l
    → IsLocal (forward_from_fd sys l s r).0
forward_from_fd-IsLocal sys s (os_fd fd) v = enqueue_write-IsLocal s (write_fd-IsLocal sys s v)
forward_from_fd-IsLocal sys {l} s (vk_rx peer) v =
    through-IsLocal peer (λ p. wake_blocked_reader (enqueue_write (splice_out l s p) s) s p) v
      (λ p. wake_blocked_reader-IsLocal s p (enqueue_write-IsLocal s (splice_out-IsLocal s p v)))
forward_from_fd-IsLocal sys s (vk_tx _) v = errno-IsLocal _ v

forwarded-IsLocal : (h : Handled) (s : ℕ) → IsLocal h.0 → IsLocal (forwarded h s).0
forwarded-IsLocal (l, true) s v = handle_block-IsLocal s v
forwarded-IsLocal (l, false) s v = v

forward_ref-IsLocal :
    (sys : Sys) {l : Local} (s : ℕ) (r t : PipeRef)
    → IsLocal l
    → IsLocal (forward_ref sys l s r t).0
forward_ref-IsLocal sys {l} s (os_fd fd) t v =
    forwarded-IsLocal (forward_from_fd sys (enqueue_read (read_fd sys l s) s) s t) s
      (forward_from_fd-IsLocal sys s t (enqueue_read-IsLocal s (read_fd-IsLocal sys s v)))
forward_ref-IsLocal sys {l} s (vk_tx peer) t v =
    forwarded-IsLocal
      (write_ref sys (through l peer (λ p. enqueue_readwriter (enqueue_read (splice_in l s p) s) s))
        s t)
      s (write_ref-IsLocal sys s t (read_in-IsLocal s peer v))
forward_ref-IsLocal sys s (vk_rx _) t v = errno-IsLocal _ v

handle_forward-IsLocal :
    (sys : Sys) {l : Local} (s : ℕ) → IsLocal l → IsLocal (handle_forward sys l s).0
unfolding handle_forward
handle_forward-IsLocal sys {l} s v =
    forward_ref-IsLocal sys s ((l.sockets s).rx_fd).ref ((l.sockets s).tx_fd).ref v

forward_eof-IsLocal : {l : Local} (s p : ℕ) → IsLocal l → IsLocal (forward_eof l s p)
unfolding forward_eof
forward_eof-IsLocal {l} s p v =
    let out = forwardhup (l.sockets p).tx (l.sockets s).rx in
    let v1 = put_rx-IsLocal s out.2 (put_tx-IsLocal p out.1 v) in
    if-IsLocal (l.sockets p).tx.eof (enqueue_readwriter-IsLocal s (enqueue_read-IsLocal s v1)) v1

readhup_ref-IsLocal : {l : Local} (s : ℕ) (r : PipeRef) → IsLocal l → IsLocal (readhup_ref l s r).0
readhup_ref-IsLocal s (os_fd fd) v = enqueue_read-IsLocal s v
readhup_ref-IsLocal {l} s (vk_tx peer) v =
    through-IsLocal peer (λ p. forward_eof l s p) v (λ p. forward_eof-IsLocal s p v)
readhup_ref-IsLocal s (vk_rx _) v = errno-IsLocal _ v

handle_readhup-IsLocal : {l : Local} (s : ℕ) → IsLocal l → IsLocal (handle_readhup l s).0
unfolding handle_readhup
handle_readhup-IsLocal {l} s v =
    forwarded-IsLocal (readhup_ref l s ((l.sockets s).rx_fd).ref) s
      (readhup_ref-IsLocal s ((l.sockets s).rx_fd).ref v)

hup_ref-IsLocal : {l : Local} (s : ℕ) (r : PipeRef) → IsLocal l → IsLocal (hup_ref l s r).0
hup_ref-IsLocal s (os_fd fd) v = enqueue_write-IsLocal s v
hup_ref-IsLocal {l} s (vk_rx _) v =
    if-IsLocal (not (l.sockets s).tx.eof)
      (enqueue_writereader-IsLocal s (enqueue_write-IsLocal s v)) v
hup_ref-IsLocal s (vk_tx _) v = errno-IsLocal _ v

handle_hup-IsLocal : {l : Local} (s : ℕ) → IsLocal l → IsLocal (handle_hup l s).0
unfolding handle_hup
handle_hup-IsLocal {l} s v =
    forwarded-IsLocal (hup_ref l s ((l.sockets s).tx_fd).ref) s
      (hup_ref-IsLocal s ((l.sockets s).tx_fd).ref v)

ended-IsLocal : {l : Local} (s : ℕ) → IsLocal l → IsLocal (ended l s).0
ended-IsLocal {l} s v =
    ready_thread-IsLocal (((handle_block l s).sockets s).block.blocked_vk)
      (handle_block-IsLocal s v)

tx_close_ref-IsLocal :
    (sys : Sys) {l : Local} (s : ℕ) (r : PipeRef) → IsLocal l → IsLocal (tx_close_ref sys l s r)
tx_close_ref-IsLocal sys s (os_fd fd) v = enqueue_write-IsLocal s (shut_tx-IsLocal sys s v)
tx_close_ref-IsLocal sys s (vk_rx _) v =
    enqueue_writereader-IsLocal s (enqueue_write-IsLocal s (eof_tx-IsLocal s v))
tx_close_ref-IsLocal sys s (vk_tx _) v =
    enqueue_writereader-IsLocal s (enqueue_write-IsLocal s (eof_tx-IsLocal s v))

rx_close_ref-IsLocal :
    (sys : Sys) {l : Local} (s : ℕ) (r : PipeRef) → IsLocal l → IsLocal (rx_close_ref sys l s r)
rx_close_ref-IsLocal sys s (os_fd fd) v = enqueue_read-IsLocal s (shut_rx-IsLocal sys s v)
rx_close_ref-IsLocal sys s (vk_rx _) v = enqueue_read-IsLocal s v
rx_close_ref-IsLocal sys s (vk_tx _) v = enqueue_read-IsLocal s v

tx_shutdown_ref-IsLocal :
    (sys : Sys) {l : Local} (s : ℕ) (r : PipeRef) → IsLocal l → IsLocal (tx_shutdown_ref sys l s r)
tx_shutdown_ref-IsLocal sys s (os_fd fd) v = enqueue_write-IsLocal s (shut_tx-IsLocal sys s v)
tx_shutdown_ref-IsLocal sys s (vk_rx _) v = enqueue_write-IsLocal s v
tx_shutdown_ref-IsLocal sys s (vk_tx _) v = enqueue_write-IsLocal s v

flush-IsLocal :
    (h k : Handled) (b : Bool) → IsLocal h.0 → IsLocal k.0 → IsLocal (if b then h else k).0
flush-IsLocal h k true v w = v
flush-IsLocal h k false v w = w

lazy_flush-IsLocal :
    (sys : Sys) (h : Handled) (s : ℕ) → IsLocal h.0 → IsLocal (lazy_flush sys h s).0
lazy_flush-IsLocal sys (l, false) s v = v
lazy_flush-IsLocal sys (l, true) s v =
    flush-IsLocal (handle_write sys l s) (l, true)
      ((l.sockets s).rx.rx_blocked
        && (not (l.sockets s).tx.tx_blocked && not (socket_empty_tx (l.sockets s))))
      (handle_write-IsLocal sys s v) v

readable_flag : (x : Socket) → (handle_readable x).blocked_enq ≡ x.blocked_enq
unfolding handle_readable set_read_block set_write_block
readable_flag x = refl

writable_flag : (x : Socket) → (handle_writable x).blocked_enq ≡ x.blocked_enq
unfolding handle_writable set_read_block set_write_block
writable_flag x = refl

handle_op-IsLocal :
    (sys : Sys) {l : Local} (s : ℕ) (op : Op) → IsLocal l → IsLocal (handle_op sys l s op).0
unfolding handle_tx_close handle_rx_close handle_tx_shutdown handle_rx_shutdown
handle_op-IsLocal sys s op_none v = v
handle_op-IsLocal sys s op_flush v = handle_write-IsLocal sys s v
handle_op-IsLocal sys s op_write v = handle_write-IsLocal sys s v
handle_op-IsLocal sys {l} s op_read v =
    lazy_flush-IsLocal sys (handle_read sys l s) s (handle_read-IsLocal sys s v)
handle_op-IsLocal sys s op_forward v = handle_forward-IsLocal sys s v
handle_op-IsLocal sys s op_hup v = handle_hup-IsLocal s v
handle_op-IsLocal sys s op_readhup v = handle_readhup-IsLocal s v
handle_op-IsLocal sys {l} s op_tx_close v =
    ended-IsLocal s (tx_close_ref-IsLocal sys s ((l.sockets s).tx_fd).ref v)
handle_op-IsLocal sys {l} s op_rx_close v =
    ended-IsLocal s (rx_close_ref-IsLocal sys s ((l.sockets s).rx_fd).ref v)
handle_op-IsLocal sys {l} s op_tx_shutdown v =
    ended-IsLocal s (tx_shutdown_ref-IsLocal sys s ((l.sockets s).tx_fd).ref v)
handle_op-IsLocal sys {l} s op_rx_shutdown v =
    ended-IsLocal s (rx_close_ref-IsLocal sys s ((l.sockets s).rx_fd).ref v)
handle_op-IsLocal sys {l} s op_readable v =
    put_socket-IsLocal s (handle_readable (l.sockets s)) (readable_flag (l.sockets s)) v
handle_op-IsLocal sys {l} s op_writable v =
    put_socket-IsLocal s (handle_writable (l.sockets s)) (writable_flag (l.sockets s)) v

-- The handler of a socket's operation keeps the queues of the process what the flags of its
-- coroutines and sockets say, and the two flags of the process what its queues say, on every branch
-- and whatever the system calls do.
pub socket_handler-IsLocal :
    (sys : ℕ → Sys) (l : Local) (s : ℕ) → IsLocal l → IsLocal (socket_handler sys l s).0
unfolding socket_handler
socket_handler-IsLocal sys l s v =
    handle_op-IsLocal (sys l.calls) s (l.sockets s).block.op (calls-IsLocal (l.calls + 1) v)
