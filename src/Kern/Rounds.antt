-- ===== src/Kern/Rounds.antt =====
-- Postpolling keeps the queues of the kernel what the flags of its processes say.
use mnvkd.Base.{◌==◌, ◌*◌, length, ℕ, zero, suc, ◌+◌, Option, some, none}
use mnvkd.Pool.{get_entry}
use mnvkd.FdTable.State.{FdTable}
use mnvkd.FdTable.Queues.{dequeue_fresh}
use mnvkd.Local.Execute.{Run, finished, broken, out_of_fuel}
use mnvkd.Kern.State.{Kern}
use mnvkd.Kern.Queues.{dequeue_run}
use mnvkd.Kern.Dispatch.{dispatch_proc}
use mnvkd.Kern.Loop.{
  sigterm, receive_signal, wake_owner, wake_next, wake_fresh, after_dispatch, World, dispatch_next,
  dispatch_all, postpoll,
}
use mnvkd.Kern.Tracking.{IsKern, if-IsKern, enqueue_run-IsKern, Taken, dequeue_run-IsKern}
use mnvkd.Kern.Upkeep.{table-IsKern}
use mnvkd.Kern.Retiring.{dispatch_proc-IsKern}

receive_signal-IsKern : {k : Kern} (signo : ℕ) → IsKern k → IsKern (receive_signal k signo)
unfolding receive_signal
receive_signal-IsKern signo v =
    if-IsKern (signo == sigterm) (record { named = v.named; runs = v.runs; blocks = v.blocks }) v

wake_owner-IsKern : {k : Kern} (o : Option ℕ) → IsKern k → IsKern (wake_owner k o)
wake_owner-IsKern none v = record { named = v.named; runs = v.runs; blocks = v.blocks }
wake_owner-IsKern (some i) v = enqueue_run-IsKern i v

wake_next-IsKern :
    (next : Kern → Kern)
    → ((k : Kern) → IsKern k → IsKern (next k))
    → {k : Kern} (o : Option (ℕ × FdTable)) → IsKern k
    → IsKern (wake_next next k o)
wake_next-IsKern next f none v = v
wake_next-IsKern next f {k} (some (d, t)) v =
    f (wake_owner (record k { fd_table = t }) (get_entry k.proc_pool (t.fds d).proc_id))
      (wake_owner-IsKern (get_entry k.proc_pool (t.fds d).proc_id) (table-IsKern v t))

wake_fresh-IsKern : (fuel : ℕ) (k : Kern) → IsKern k → IsKern (wake_fresh fuel k)
unfolding wake_fresh
wake_fresh-IsKern zero k v = v
wake_fresh-IsKern (suc fuel) k v =
    wake_next-IsKern (wake_fresh fuel) (wake_fresh-IsKern fuel) (dequeue_fresh k.fd_table) v

after_dispatch-IsKern :
    (next : Kern → Kern × Run)
    → ((k : Kern) → IsKern k → IsKern (next k).0)
    → (signo : ℕ) (r : Kern × Run) → IsKern r.0
    → IsKern (after_dispatch next signo r).0
after_dispatch-IsKern next f signo (k, finished) v =
    f (receive_signal k signo) (receive_signal-IsKern signo v)
after_dispatch-IsKern next f signo (k, broken) v = v
after_dispatch-IsKern next f signo (k, out_of_fuel) v = v

dispatch_next-IsKern :
    (w : World) (n : ℕ) (next : Kern → Kern × Run)
    → ((k : Kern) → IsKern k → IsKern (next k).0)
    → {k : Kern} (o : Option (ℕ × Kern)) → IsKern k
    → Taken o
    → IsKern (dispatch_next w n next k o).0
dispatch_next-IsKern w n next f none v t = v
dispatch_next-IsKern w n next f (some (i, m)) v t =
    after_dispatch-IsKern next f (w.signals (2 * n + 1))
      (dispatch_proc w.zero_local w.zero_heap (w.calls n) (receive_signal m (w.signals (2 * n))) i)
      (dispatch_proc-IsKern w.zero_local w.zero_heap (w.calls n) i
        (receive_signal-IsKern (w.signals (2 * n)) t))

dispatch_all-IsKern :
    (w : World) (fuel n : ℕ) (k : Kern) → IsKern k → IsKern (dispatch_all w fuel n k).0
unfolding dispatch_all
dispatch_all-IsKern w zero n k v = v
dispatch_all-IsKern w (suc fuel) n k v =
    dispatch_next-IsKern w n (dispatch_all w fuel (n + 1)) (dispatch_all-IsKern w fuel (n + 1))
      (dequeue_run k) v (dequeue_run-IsKern v)

-- Postpolling, with every dispatch in it, keeps the two queues of the kernel what the flags of its
-- processes say, and every process its id, wherever it ends: for coroutines that change nothing but
-- their own process, so for none that accepts a connection and allocates a process for it, whatever
-- the system calls give and whatever signals are received, if none is the fault of a process.
pub postpoll-IsKern :
    (w : World) (fuel n : ℕ) (k : Kern) → IsKern k → IsKern (postpoll w fuel n k).0
unfolding postpoll
postpoll-IsKern w fuel n k v =
    dispatch_all-IsKern w fuel n (wake_fresh (length k.fd_table.fresh_fds) k)
      (wake_fresh-IsKern (length k.fd_table.fresh_fds) k v)
