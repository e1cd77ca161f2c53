-- ===== src/Kern/Process.antt =====
-- What is done for one process: vk_proc_prepoll, vk_proc_postpoll and vk_proc_execute.
use mnvkd.Base.{
  ℕ, ℤ, is_minus_one, to_size, Bool, true, false, not, if◌then◌else◌, Option, some, none, List, [],
  ◌∷◌,
}
use mnvkd.Heap.{heap_enter}
use mnvkd.FdTable.State.{FdTable, IoFuture, get}
use mnvkd.FdTable.Queues.{enqueue_dirty}
use mnvkd.FdTable.Prepoll.{Proc, deallocate_fd, prepoll_blocked_socket}
use mnvkd.Local.State.{Local, put_socket}
use mnvkd.Local.Handlers.{Sys, Handled}
use mnvkd.Local.Execute.{
  Func, Run, finished, broken, out_of_fuel, execute, execute_isolated, raise_signal, retry_socket,
}
use mnvkd.Kern.State.{Process, Kern, put_process}

-- What the code calls that is not modelled, in one dispatch of a process: the functions of its
-- coroutines, the system calls, the isolate, the callbacks of its pool, and the place of the macro
-- that raises an error.
pub record Calls : Type 0 where
  pub func : Func
  pub sys : ℕ → Sys
  pub continue : Option (Func → Func)
  pub enter : Bool
  pub exit : Bool
  pub munmap : Bool
  pub free_func : ℕ → Bool
  pub line : ℕ
  pub counter : ℤ
  pub fuel : ℕ

-- The loop over the allocated descriptors; the link is read before the entry is deallocated.
unfoldable pub prepoll_fds : FdTable → Proc → List ℕ → FdTable × Proc
prepoll_fds t p [] = (t, p)
prepoll_fds t p (i ∷ rest) =
    let closed = (t.fds i).closed in
    let t1 = if closed then enqueue_dirty t i else t in
    let (t2, p1) = if closed then deallocate_fd t1 p i else (t1, p) in prepoll_fds t2 p1 rest

unfoldable pub prepoll_sockets : Local → FdTable → Proc → List ℕ → FdTable × Proc
prepoll_sockets l t p [] = (t, p)
prepoll_sockets l t p (s ∷ rest) =
    let block = (l.sockets s).block in
    let (t1, p1) = prepoll_blocked_socket t block.ioft_rx_pre block.ioft_tx_pre p in
    prepoll_sockets l t1 p1 rest

unfoldable pub proc_prepoll : Process → FdTable → FdTable × Process
proc_prepoll p t =
    let (t1, f1) = prepoll_fds t p.fds p.fds.allocated_fds in
    let (t2, f2) = prepoll_sockets p.local t1 f1 (p.local).blocked_q in (t2, record p { fds = f2 })

-- `vk_io_future_set_event`
abbrev pub set_event : IoFuture → IoFuture → IoFuture
set_event f from = record f { fd = from.fd; events = from.events; revents = from.revents }

-- What the poller returned for the descriptor of a future: none where it has no descriptor, and
-- failure where the table has no entry for it.
abbrev pub polled : FdTable → IoFuture → Option ℕ → Bool × IoFuture
polled t ret none = (false, ret)
polled t ret (some i) = (true, set_event ret (t.fds i).ioft_ret)

abbrev pub apply_poll : FdTable → IoFuture → IoFuture → Bool × IoFuture
apply_poll t pre ret =
    if is_minus_one pre.fd then (true, ret) else polled t ret (get t (to_size pre.fd))

unfoldable pub postpoll_socket : FdTable → Local → ℕ → Handled
postpoll_socket t l s =
    let x = l.sockets s in
    let (rx_ok, rx) = apply_poll t x.block.ioft_rx_pre x.block.ioft_rx_ret in
    let (tx_ok, tx) = apply_poll t x.block.ioft_tx_pre x.block.ioft_tx_ret in
    let l1 = put_socket l s (record x { block = record (x.block) { ioft_rx_ret = rx } }) in
    let l2 =
      put_socket l s
        (record x { block = record (x.block) { ioft_rx_ret = rx; ioft_tx_ret = tx } }) in
    if not rx_ok then (l, false) else (if not tx_ok then (l1, false) else (l2, true))

abbrev pub and_then : (Local → Handled) → Handled → Handled
and_then next (l, true) = next l
and_then next (l, false) = (l, false)

unfoldable pub postpoll_sockets : FdTable → Local → List ℕ → Handled
postpoll_sockets t l [] = (l, true)
postpoll_sockets t l (s ∷ rest) = and_then (λ m. postpoll_sockets t m rest) (postpoll_socket t l s)

-- A socket keeps its link when it is dropped from the queue, so the loop goes over the sockets that
-- the queue has when it begins.
unfoldable pub retry_sockets : (ℕ → Sys) → Local → List ℕ → Handled
retry_sockets sys l [] = (l, true)
retry_sockets sys l (s ∷ rest) = and_then (λ m. retry_sockets sys m rest) (retry_socket sys l s)

unfoldable pub proc_postpoll : (ℕ → Sys) → FdTable → Local → Handled
proc_postpoll sys t l =
    and_then (λ m. retry_sockets sys m m.blocked_q) (postpoll_sockets t l l.blocked_q)

-- Postpolling is left out where a signal was raised inside the process.
abbrev pub after_signal : (ℕ → Sys) → FdTable → Local × Bool → Handled
after_signal sys t (l, true) = (l, true)
after_signal sys t (l, false) = proc_postpoll sys t l

abbrev pub execute_in : Calls → Bool → Option (Func → Func) → Local → Local × Run
execute_in calls true (some continue) l =
    execute_isolated continue calls.fuel calls.func calls.sys l
execute_in calls true none l = execute calls.fuel calls.func calls.sys l
execute_in calls false _ l = execute calls.fuel calls.func calls.sys l

abbrev pub after_execute : Kern → ℕ → Local × Run → Kern × Run
after_execute k i (l, finished) =
    let (t, p) = proc_prepoll (record (k.procs i) { local = l }) k.fd_table in
    (put_process (record k { fd_table = t }) i p, finished)
after_execute k i (l, broken) = (put_process k i (record (k.procs i) { local = l }), broken)
after_execute k i (l, out_of_fuel) =
    (put_process k i (record (k.procs i) { local = l }), out_of_fuel)

-- The heap of the process is entered once more before it is executed.
abbrev pub execute_ready : Calls → Kern → ℕ → Handled → Kern × Run
execute_ready calls k i (l, false) = (put_process k i (record (k.procs i) { local = l }), broken)
execute_ready calls k i (l, true) =
    let (heap, _, _) = heap_enter (k.procs i).heap calls.enter in
    let k1 = put_process k i (record (k.procs i) { heap = heap }) in
    after_execute k1 i (execute_in calls (k.procs i).isolated calls.continue l)

-- `vk_proc_execute`; `finished` stands for 0 and `broken` for -1.
unfoldable pub proc_execute : Calls → Kern → ℕ → Kern × Run
proc_execute calls k i =
    if not (k.procs i).has_local
    then (k, finished)
    else execute_ready calls k i (
        after_signal calls.sys k.fd_table (raise_signal (k.procs i).local calls.line calls.counter))
