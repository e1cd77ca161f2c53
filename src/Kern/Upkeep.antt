-- ===== src/Kern/Upkeep.antt =====
-- Executing a process keeps the queues of the kernel what the flags of its processes say.
use mnvkd.Base.{
  is_minus_one, to_size, ◌&&◌, [], ◌∷◌, ◌∙◌, ℕ, Bool, true, false, not, if◌then◌else◌, Option, some,
  none, List, ◌≡◌, refl, arith,
}
use mnvkd.Heap.{heap_enter}
use mnvkd.FdTable.State.{FdTable, IoFuture, get, allocate}
use mnvkd.FdTable.Queues.{enqueue_dirty}
use mnvkd.FdTable.Prepoll.{
  Proc, allocate_fd, deallocate_fd, prepoll_entry, prepoll_blocked_fd, prepoll_blocked_socket,
  same_int, retire_fd, retire_all,
}
use mnvkd.Local.State.{Local}
use mnvkd.Local.Handlers.{Handled}
use mnvkd.Local.Execute.{Run, finished, broken, out_of_fuel, raise_signal}
use mnvkd.Kern.State.{Process, Kern}
use mnvkd.Kern.Process.{
  Calls, prepoll_fds, prepoll_sockets, proc_prepoll, after_signal, execute_in, after_execute,
  execute_ready, proc_execute,
}
use mnvkd.Kern.Dispatch.{execute_mainline, after_mainline, kern_execute_proc}
use mnvkd.Kern.Tracking.{IsKern, put_process-IsKern}

-- A state with the same processes and queues.
module _ {k : Kern} (v : IsKern k) where
  pub table-IsKern : (t : FdTable) → IsKern (record k { fd_table = t })
  table-IsKern t = record { named = v.named; runs = v.runs; blocks = v.blocks }

  failed-IsKern : (b : Bool) → IsKern (record k { failed = b })
  failed-IsKern b = record { named = v.named; runs = v.runs; blocks = v.blocks }

-- Polling and retiring the descriptors of a process keep its id.
allocate_fd-id : (t : FdTable) (p : Proc) (i fd : ℕ) → (allocate_fd t p i fd).1.proc_id ≡ p.proc_id
unfolding allocate_fd allocate
allocate_fd-id t p i fd = ground arith

deallocate_fd-id : (t : FdTable) (p : Proc) (i : ℕ) → (deallocate_fd t p i).1.proc_id ≡ p.proc_id
unfolding deallocate_fd
deallocate_fd-id t p i = ground arith

prepoll_entry-id :
    (t : FdTable) (f : IoFuture) (p : Proc) (o : Option ℕ)
    → (prepoll_entry t f p o).1.proc_id ≡ p.proc_id
prepoll_entry-id t f p none = refl
prepoll_entry-id t f p (some i) = allocate_fd-id t p i (to_size f.fd)

id_if :
    (r s : FdTable × Proc) (b : Bool) (n : ℕ)
    → r.1.proc_id ≡ n
    → s.1.proc_id ≡ n
    → (if b then r else s).1.proc_id ≡ n
id_if r s true n p q = p
id_if r s false n p q = q

prepoll_blocked_socket-id :
    (t : FdTable) (rx tx : IoFuture) (p : Proc)
    → (prepoll_blocked_socket t rx tx p).1.proc_id ≡ p.proc_id
unfolding prepoll_blocked_socket prepoll_blocked_fd
prepoll_blocked_socket-id t rx tx p =
    let first = if not (is_minus_one rx.fd) then prepoll_blocked_fd t rx p else (t, p) in
    let e =
      id_if (prepoll_blocked_fd t rx p) (t, p) (not (is_minus_one rx.fd)) p.proc_id
        (prepoll_entry-id t rx p (get t (to_size rx.fd))) refl in
    id_if (prepoll_blocked_fd first.0 tx first.1) first
      (not (is_minus_one tx.fd) && not (same_int tx.fd rx.fd)) p.proc_id
      (prepoll_entry-id first.0 tx first.1 (get first.0 (to_size tx.fd)) ∙ e) e

prepoll_sockets-id :
    (l : Local) (t : FdTable) (p : Proc) (xs : List ℕ)
    → (prepoll_sockets l t p xs).1.proc_id ≡ p.proc_id
unfolding prepoll_sockets
prepoll_sockets-id l t p [] = refl
prepoll_sockets-id l t p (s ∷ xs) =
    let block = (l.sockets s).block in
    let out = prepoll_blocked_socket t block.ioft_rx_pre block.ioft_tx_pre p in
    prepoll_sockets-id l out.0 out.1 xs
    ∙ prepoll_blocked_socket-id t block.ioft_rx_pre block.ioft_tx_pre p

prepoll_fds-id : (t : FdTable) (p : Proc) (xs : List ℕ) → (prepoll_fds t p xs).1.proc_id ≡ p.proc_id
unfolding prepoll_fds
prepoll_fds-id t p [] = refl
prepoll_fds-id t p (i ∷ xs) =
    let closed = (t.fds i).closed in
    let t1 = if closed then enqueue_dirty t i else t in
    let out = if closed then deallocate_fd t1 p i else (t1, p) in
    prepoll_fds-id out.0 out.1 xs
    ∙ id_if (deallocate_fd t1 p i) (t1, p) closed p.proc_id (deallocate_fd-id t1 p i) refl

proc_prepoll-id : (p : Process) (t : FdTable) → (proc_prepoll p t).1.fds.proc_id ≡ p.fds.proc_id
unfolding proc_prepoll
proc_prepoll-id p t =
    let out = prepoll_fds t p.fds p.fds.allocated_fds in
    prepoll_sockets-id p.local out.0 out.1 (p.local).blocked_q
    ∙ prepoll_fds-id t p.fds p.fds.allocated_fds

pub retire_all-id :
    (xs : List ℕ) (t : FdTable) (p : Proc) → (retire_all t p xs).1.proc_id ≡ p.proc_id
unfolding retire_fd
retire_all-id [] t p = refl
retire_all-id (i ∷ xs) t p =
    let out = retire_fd t p i in retire_all-id xs out.0 out.1 ∙ deallocate_fd-id _ p i

after_execute-IsKern :
    {k : Kern} (i : ℕ) (r : Local × Run) → IsKern k → IsKern (after_execute k i r).0
unfolding proc_prepoll
after_execute-IsKern {k} i (l, finished) v =
    let out = proc_prepoll (record (k.procs i) { local = l }) k.fd_table in
    put_process-IsKern i out.1 refl refl
      (proc_prepoll-id (record (k.procs i) { local = l }) k.fd_table) (table-IsKern v out.0)
after_execute-IsKern {k} i (l, broken) v =
    put_process-IsKern i (record (k.procs i) { local = l }) refl refl refl v
after_execute-IsKern {k} i (l, out_of_fuel) v =
    put_process-IsKern i (record (k.procs i) { local = l }) refl refl refl v

execute_ready-IsKern :
    (calls : Calls) {k : Kern} (i : ℕ) (h : Handled)
    → IsKern k
    → IsKern (execute_ready calls k i h).0
execute_ready-IsKern calls {k} i (l, false) v =
    put_process-IsKern i (record (k.procs i) { local = l }) refl refl refl v
execute_ready-IsKern calls {k} i (l, true) v =
    let heap = (heap_enter (k.procs i).heap calls.enter).0 in
    after_execute-IsKern i (execute_in calls (k.procs i).isolated calls.continue l)
      (put_process-IsKern i (record (k.procs i) { heap = heap }) refl refl refl v)

pub choose-IsKern :
    (r s : Kern × Run) (b : Bool) → IsKern r.0 → IsKern s.0 → IsKern (if b then r else s).0
choose-IsKern r s true v w = v
choose-IsKern r s false v w = w

proc_execute-IsKern :
    (calls : Calls) {k : Kern} (i : ℕ) → IsKern k → IsKern (proc_execute calls k i).0
unfolding proc_execute
proc_execute-IsKern calls {k} i v =
    let h =
      after_signal calls.sys k.fd_table (raise_signal (k.procs i).local calls.line calls.counter) in
    choose-IsKern (k, finished) (execute_ready calls k i h) (not (k.procs i).has_local) v
      (execute_ready-IsKern calls i h v)

after_mainline-IsKern : (r : Kern × Bool) → IsKern r.0 → IsKern (after_mainline r).0
after_mainline-IsKern (k, true) v = v
after_mainline-IsKern (k, false) v = v

pub kern_execute_proc-IsKern :
    (calls : Calls) {k : Kern} (i : ℕ) → IsKern k → IsKern (kern_execute_proc calls k i).0
unfolding kern_execute_proc execute_mainline
kern_execute_proc-IsKern calls {k} i v =
    after_mainline-IsKern (execute_mainline calls k i)
      (failed-IsKern (proc_execute-IsKern calls i v) false)
