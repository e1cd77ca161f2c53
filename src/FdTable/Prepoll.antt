-- ===== src/FdTable/Prepoll.antt =====
-- The events that a process waits for: vk_fd_table_prepoll_blocked_socket,
-- vk_fd_table_prepoll_blocked_fd and vk_fd_table_prepoll_zombie, with vk_proc_allocate_fd and
-- vk_proc_deallocate_fd of vk_proc.c.
use mnvkd.Base.{
  ℕ, ℤ, pos, negsuc, is_minus_one, to_size, Bool, true, false, not, ◌&&◌, ◌||◌, if◌then◌else◌, ◌==◌,
  Option, some, none, List, [], ◌∷◌, ok, fail,
}
use mnvkd.FdTable.State.{any_bits, IoFuture, io_future_init, allocate, FdTable, get, put_fd}
use mnvkd.Queue.{remove}
use mnvkd.FdTable.Queues.{enqueue_dirty}

-- The part of struct vk_proc that these operations keep.
pub record Proc : Type 0 where
  pub proc_id : ℕ
  pub allocated_fds : List ℕ

-- The result of `vk_fd_allocate` is not looked at.
unfoldable pub allocate_fd : FdTable → Proc → ℕ → ℕ → FdTable × Proc
allocate_fd t p i fd =
    if not (t.fds i).allocated
    then (elim (allocate (t.fds i) fd p.proc_id) [
      | ok d ↦ (put_fd t i d, record p { allocated_fds = i ∷ p.allocated_fds })
      | fail _ ↦ (t, record p { allocated_fds = i ∷ p.allocated_fds })
    ])
    else (t, p)

unfoldable pub deallocate_fd : FdTable → Proc → ℕ → FdTable × Proc
deallocate_fd t p i =
    if (t.fds i).allocated
    then (
      put_fd t i (record (t.fds i) { allocated = false }),
      record p { allocated_fds = remove i p.allocated_fds },
    )
    else (t, p)

-- The entry takes over the socket and the events of the socket's I/O future.
unfoldable pub set_pre : FdTable → ℕ → IoFuture → FdTable
set_pre t i f = put_fd t i (record (t.fds i) {
  ioft_pre = record (io_future_init f.socket) { fd = f.fd; events = f.events };
})

-- Something to poll for, or both sides to close.
abbrev pub wanted : IoFuture → Bool
wanted f = any_bits f.events || (f.rx_closed && f.tx_closed)

abbrev pub register_entry : FdTable → IoFuture → ℕ → FdTable
register_entry t f i =
    let t1 = set_pre t i f in if wanted ((t1.fds i).ioft_pre) then enqueue_dirty t1 i else t1

abbrev pub prepoll_entry : FdTable → IoFuture → Proc → Option ℕ → FdTable × Proc
prepoll_entry t f p none = (t, p)
prepoll_entry t f p (some i) =
    let (t1, p1) = allocate_fd t p i (to_size f.fd) in (register_entry t1 f i, p1)

unfoldable pub prepoll_blocked_fd : FdTable → IoFuture → Proc → FdTable × Proc
prepoll_blocked_fd t f p = prepoll_entry t f p (get t (to_size f.fd))

abbrev pub same_int : ℤ → ℤ → Bool
same_int (pos a) (pos b) = a == b
same_int (negsuc a) (negsuc b) = a == b
same_int (pos a) (negsuc b) = false
same_int (negsuc a) (pos b) = false

-- `rx` and `tx` are the block's `ioft_rx_pre` and `ioft_tx_pre`.
unfoldable pub prepoll_blocked_socket : FdTable → IoFuture → IoFuture → Proc → FdTable × Proc
prepoll_blocked_socket t rx tx p =
    let (t1, p1) = if not (is_minus_one rx.fd) then prepoll_blocked_fd t rx p else (t, p) in
    if not (is_minus_one tx.fd) && not (same_int tx.fd rx.fd)
    then prepoll_blocked_fd t1 tx p1
    else (t1, p1)

unfoldable pub retire_fd : FdTable → Proc → ℕ → FdTable × Proc
retire_fd t p i =
    let d = t.fds i in
    let t1 = put_fd t i (record d {
      ioft_pre = record (d.ioft_pre) { rx_closed = true; tx_closed = true };
      zombie = true;
    }) in
    deallocate_fd (enqueue_dirty t1 i) p i

-- The walk takes the link of an entry before the entry is deallocated.
abbrev pub retire_all : FdTable → Proc → List ℕ → FdTable × Proc
retire_all t p [] = (t, p)
retire_all t p (i ∷ is) = let (t1, p1) = retire_fd t p i in retire_all t1 p1 is

unfoldable pub prepoll_zombie : FdTable → Proc → FdTable × Proc
prepoll_zombie t p = retire_all t p p.allocated_fds
