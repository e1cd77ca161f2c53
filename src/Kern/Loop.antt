-- ===== src/Kern/Loop.antt =====
-- The loop of the kernel: vk_kern_receive_signal, vk_kern_postpoll, vk_kern_poll and vk_kern_loop.
-- `calls` and `signals` give what each dispatch calls and receives, and `wait` what the polls do. The
-- loops are on fuel.
use mnvkd.Base.{
  ℕ, zero, suc, ◌+◌, ◌*◌, ℤ, Bool, true, false, if◌then◌else◌, ◌==◌, length, Option, some, none,
}
use mnvkd.Heap.{Heap}
use mnvkd.Pool.{get_entry}
use mnvkd.FdTable.State.{FdTable}
use mnvkd.FdTable.Queues.{dequeue_fresh}
use mnvkd.Local.State.{Local}
use mnvkd.Local.Execute.{Run, finished, broken, out_of_fuel}
use mnvkd.Kern.State.{Kern}
use mnvkd.Kern.Queues.{enqueue_run, dequeue_run, pending}
use mnvkd.Kern.Process.{Calls}
use mnvkd.Kern.Dispatch.{prepoll, dispatch_proc}

abbrev pub sigterm : ℕ
sigterm = 15

-- `vk_kern_receive_signal` of a signal, or of none, which is 0; the dump changes nothing.
unfoldable pub receive_signal : Kern → ℕ → Kern
receive_signal k signo = if signo == sigterm then record k { shutdown_requested = true } else k

-- The process that has a descriptor is queued; where there is none, NULL is followed.
abbrev pub wake_owner : Kern → Option ℕ → Kern
wake_owner k none = record k { faulted = true }
wake_owner k (some i) = enqueue_run k i

abbrev pub wake_next : (Kern → Kern) → Kern → Option (ℕ × FdTable) → Kern
wake_next next k none = k
wake_next next k (some (d, t)) =
    next (wake_owner (record k { fd_table = t }) (get_entry k.proc_pool (t.fds d).proc_id))

-- The first loop of `vk_kern_postpoll`, over as many descriptors as the queue has
unfoldable pub wake_fresh : ℕ → Kern → Kern
wake_fresh zero k = k
wake_fresh (suc fuel) k = wake_next (wake_fresh fuel) k (dequeue_fresh k.fd_table)

abbrev pub after_dispatch : (Kern → Kern × Run) → ℕ → Kern × Run → Kern × Run
after_dispatch next signo (k, finished) = next (receive_signal k signo)
after_dispatch next signo (k, broken) = (k, broken)
after_dispatch next signo (k, out_of_fuel) = (k, out_of_fuel)

-- What happens in the `n`-th dispatch.
pub record World : Type 0 where
  pub calls : ℕ → Calls
  pub signals : ℕ → ℕ
  pub wait : ℕ → FdTable → FdTable × Bool
  pub zero_local : Local
  pub zero_heap : Heap
  pub line : ℕ
  pub counter : ℤ

abbrev pub dispatch_next : World → ℕ → (Kern → Kern × Run) → Kern → Option (ℕ × Kern) → Kern × Run
dispatch_next w n next k none = (k, finished)
dispatch_next w n next k (some (i, k1)) =
    after_dispatch next (w.signals (2 * n + 1))
      (dispatch_proc w.zero_local w.zero_heap (w.calls n) (receive_signal k1 (w.signals (2 * n))) i)

-- The second loop of `vk_kern_postpoll`
unfoldable pub dispatch_all : World → ℕ → ℕ → Kern → Kern × Run
dispatch_all w zero n k = (k, out_of_fuel)
dispatch_all w (suc fuel) n k = dispatch_next w n (dispatch_all w fuel (n + 1)) k (dequeue_run k)

unfoldable pub postpoll : World → ℕ → ℕ → Kern → Kern × Run
postpoll w fuel n k = dispatch_all w fuel n (wake_fresh (length k.fd_table.fresh_fds) k)

abbrev pub poll_next : World → ℕ → (Kern → Kern × Run) → Kern → FdTable × Bool → Kern × Run
poll_next w n next k (t, true) = next (record k { fd_table = t })
poll_next w n next k (t, false) = (record k { fd_table = t }, broken)

abbrev pub while_pending : (Kern → Kern × Run) → Kern × Run → Kern × Run
while_pending next (k, finished) = if pending k then next k else (k, finished)
while_pending next (k, broken) = (k, broken)
while_pending next (k, out_of_fuel) = (k, out_of_fuel)

-- The body of `vk_kern_loop` and its repetition. The dispatches of a round have numbers of their own.
unfoldable pub rounds : World → ℕ → ℕ → Kern → Kern × Run
rounds w zero n k = (k, out_of_fuel)
rounds w (suc fuel) n k =
    let k1 = prepoll w.line w.counter k in
    poll_next w n (λ m. while_pending (rounds w fuel (n + suc fuel)) (postpoll w (suc fuel) n m)) k1
      (w.wait n k1.fd_table)

abbrev pub after_first : (Kern → Kern × Run) → Kern × Run → Kern × Run
after_first next (k, finished) = next k
after_first next (k, broken) = (k, broken)
after_first next (k, out_of_fuel) = (k, out_of_fuel)

unfoldable pub loop : World → ℕ → Kern → Kern × Run
loop w fuel k = after_first (rounds w fuel fuel) (postpoll w fuel 0 k)
