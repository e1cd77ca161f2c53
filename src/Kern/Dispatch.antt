-- ===== src/Kern/Dispatch.antt =====
-- Dispatching processes and the loop: vk_kern_prepoll, vk_proc_execute_mainline,
-- vk_kern_execute_proc, vk_kern_dispatch_proc, vk_kern_postpoll and vk_kern_loop. A process
-- that is dispatched changes nothing of the kernel but itself, so none is a listener of vk_service.c,
-- and no fault is raised inside it: the jump out of a signal handler, which enters the mainline again,
-- is not modelled.
use mnvkd.Base.{
  ℕ, ℤ, Bool, true, false, not, if◌then◌else◌, ◌==◌, Option, some, none, List, [], ◌∷◌, eintr,
}
use mnvkd.Heap.{Heap, heap_enter, heap_exit, heap_unmap}
use mnvkd.Pool.{get_entry, free_entry}
use mnvkd.Vectoring.State.{set_rx_blocked, set_tx_blocked}
use mnvkd.FdTable.Prepoll.{prepoll_zombie}
use mnvkd.Local.State.{Local, put_socket}
use mnvkd.Local.Queues.{enqueue_run as enqueue_thread, drop_blocked}
use mnvkd.Local.Execute.{Run, finished, broken, out_of_fuel}
use mnvkd.Local.Waking.{raise_at}
use mnvkd.Kern.State.{Kern, put_process, proc_clear}
use mnvkd.Kern.Queues.{flush_proc_queues, is_zombie}
use mnvkd.Kern.Process.{Calls, proc_execute}

-- The coroutine of a blocked socket is queued, with EINTR.
abbrev pub interrupt_thread : ℕ → ℤ → Local → Option ℕ → Local
interrupt_thread line counter l none = l
interrupt_thread line counter l (some i) = raise_at (enqueue_thread l i) i eintr line counter

unfoldable pub interrupt_socket : ℕ → ℤ → Local → ℕ → Local
interrupt_socket line counter l s =
    let x = l.sockets s in
    let l1 =
      put_socket l s
        (record x { rx = set_rx_blocked x.rx false; tx = set_tx_blocked x.tx false }) in
    let l2 = drop_blocked l1 s in
    let y = l2.sockets s in
    let l3 = put_socket l2 s (record y { block = record (y.block) { blocked_vk = none } }) in
    interrupt_thread line counter l3 (x.block.blocked_vk)

-- The sockets as they are when the loop begins: the link is read before the socket is dropped.
abbrev pub interrupt_sockets : ℕ → ℤ → Local → List ℕ → Local
interrupt_sockets line counter l [] = l
interrupt_sockets line counter l (s ∷ rest) =
    interrupt_sockets line counter (interrupt_socket line counter l s) rest

unfoldable pub interrupt_process : ℕ → ℤ → Kern → ℕ → Kern
interrupt_process line counter k i =
    let p = record (k.procs i) { run_qed = true } in
    let l = interrupt_sockets line counter p.local (p.local).blocked_q in
    flush_proc_queues (put_process k i (record p { local = l })) i

-- The blocked processes as they are when the loop begins.
abbrev pub interrupt_all : ℕ → ℤ → Kern → List ℕ → Kern
interrupt_all line counter k [] = k
interrupt_all line counter k (i ∷ rest) =
    interrupt_all line counter (interrupt_process line counter k i) rest

-- `vk_kern_prepoll`
unfoldable pub prepoll : ℕ → ℤ → Kern → Kern
prepoll line counter k =
    if not k.shutdown_requested then k else interrupt_all line counter k k.blocked_procs

abbrev pub failing : Run → Bool → Bool
failing broken b = true
failing finished b = b
failing out_of_fuel b = b

-- Whether the execution used up its fuel, which the code has none of, stands beside the state.
abbrev pub exhausted : Run → Bool
exhausted out_of_fuel = true
exhausted finished = false
exhausted broken = false

-- `vk_proc_execute_mainline`: the return code is set to -1 on failure, and then to 0 in any case.
unfoldable pub execute_mainline : Calls → Kern → ℕ → Kern × Bool
execute_mainline calls k i =
    let (k1, run) = proc_execute calls k i in
    let k2 = record k1 { failed = failing run k1.failed } in
    (record k2 { failed = false }, exhausted run)

abbrev pub after_mainline : Kern × Bool → Kern × Run
after_mainline (k, true) = (k, out_of_fuel)
after_mainline (k, false) = (k, if k.failed then broken else finished)

-- `vk_kern_execute_proc`
unfoldable pub kern_execute_proc : Calls → Kern → ℕ → Kern × Run
kern_execute_proc calls k i = after_mainline (execute_mainline calls k i)

-- `vk_proc_free_from_pool`
abbrev pub free_in_pool : Calls → Kern → ℕ → ℕ → Kern × Bool
free_in_pool calls k i q =
    let (pool, freed) =
      free_entry calls.free_func (k.pools q) (get_entry (k.pools q) (k.procs i).pool_entry_id) in
    (record k { pools = λ j. if j == q then pool else k.pools j }, freed)

-- The heap of a process is left; a failure of the call is one of the dispatch.
abbrev pub leave : Calls → Kern → ℕ → Kern × Run
leave calls k i =
    let (heap, _, good) = heap_exit (k.procs i).heap calls.exit in
    (put_process k i (record (k.procs i) { heap = heap }), if good then finished else broken)

-- A process without a pool loses its mapping.
abbrev pub leave_freed : Calls → Kern × Bool → ℕ → Kern × Run
leave_freed calls (k, true) i = leave calls k i
leave_freed calls (k, false) i = (k, broken)

abbrev pub free_memory : Calls → Kern → ℕ → Option ℕ → Kern × Run
free_memory calls k i none =
    (k, if heap_unmap (k.procs i).heap calls.munmap then finished else broken)
free_memory calls k i (some q) = leave_freed calls (free_in_pool calls k i q) i

-- `vk_kern_free_proc`, with the callback `vk_kern_proc_free`, for an entry that there is
abbrev pub clear_entry : Local → Heap → Kern → Option ℕ → Kern
clear_entry zero_local zero_heap k none = k
clear_entry zero_local zero_heap k (some i) =
    put_process k i (proc_clear zero_local zero_heap (k.procs i))

unfoldable pub free_proc : Local → Heap → Kern → ℕ → Kern
free_proc zero_local zero_heap k i =
    let entry = get_entry k.proc_pool (k.procs i).fds.proc_id in
    let (pool, _) = free_entry (λ _. true) k.proc_pool entry in
    clear_entry zero_local zero_heap (record k { proc_pool = pool }) entry

abbrev pub after_free : Local → Heap → ℕ → Kern × Run → Kern × Run
after_free zero_local zero_heap i (k, finished) = (free_proc zero_local zero_heap k i, finished)
after_free zero_local zero_heap i (k, broken) = (k, broken)
after_free zero_local zero_heap i (k, out_of_fuel) = (k, out_of_fuel)

abbrev pub retire : Local → Heap → Calls → Kern → ℕ → Kern × Run
retire zero_local zero_heap calls k i =
    let (t, fds) = prepoll_zombie k.fd_table (k.procs i).fds in
    let k1 = put_process (record k { fd_table = t }) i (record (k.procs i) { fds = fds }) in
    after_free zero_local zero_heap i (free_memory calls k1 i (k1.procs i).pool)

abbrev pub settle : Local → Heap → Calls → Kern → ℕ → Kern × Run
settle zero_local zero_heap calls k i =
    if is_zombie (k.procs i)
    then retire zero_local zero_heap calls k i
    else (if (k.procs i).isolated then leave calls k i else (k, finished))

abbrev pub after_execution : Local → Heap → Calls → ℕ → Kern × Run → Kern × Run
after_execution zero_local zero_heap calls i (k, finished) =
    settle zero_local zero_heap calls (flush_proc_queues k i) i
after_execution zero_local zero_heap calls i (k, broken) = (k, broken)
after_execution zero_local zero_heap calls i (k, out_of_fuel) = (k, out_of_fuel)

-- `vk_kern_dispatch_proc`
unfoldable pub dispatch_proc : Local → Heap → Calls → Kern → ℕ → Kern × Run
dispatch_proc zero_local zero_heap calls k i =
    let (heap, _, good) = heap_enter (k.procs i).heap calls.enter in
    let k1 = put_process k i (record (k.procs i) { heap = heap }) in
    if not good
    then (k1, broken)
    else after_execution zero_local zero_heap calls i (kern_execute_proc calls k1 i)
