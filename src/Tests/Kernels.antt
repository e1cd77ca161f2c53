-- ===== src/Tests/Kernels.antt =====
-- A kernel with one process, number 0, which is blocked, and is asked to shut down.
use mnvkd.Base.{ℕ, ◌≡◌, refl, arith, true, false, not, ◌==◌, [], ◌∷◌, member, pos, none}
use mnvkd.Queue.{is_nil}
use mnvkd.Local.State.{Local}
use mnvkd.Kern.State.{Process, Kern}
use mnvkd.Kern.Queues.{flush_proc_queues, enqueue_run, enqueue_blocked, drop_run, drop_blocked}
use mnvkd.Local.Queues.{enqueue_run as enqueue_thread, drop_blocked as drop_socket}
use mnvkd.Local.Waking.{raise_at}
use mnvkd.Thread.{ready, is_ready, set_raised}
use mnvkd.Socket.{init_block}
use mnvkd.Vectoring.State.{set_rx_blocked, set_tx_blocked}
use mnvkd.Kern.Process.{Calls}
use mnvkd.Kern.Dispatch.{prepoll, interrupt_process, interrupt_socket}
use mnvkd.Kern.Loop.{World, postpoll}
use mnvkd.Kern.Tracking.{IsKern}
use mnvkd.Kern.Flushing.{flush-follows}
use mnvkd.Kern.Rounds.{postpoll-IsKern}
use mnvkd.Kern.Shutdown.{prepoll-run_procs}
use mnvkd.Tests.Locals.{process, sys, ending}
use mnvkd.Local.Tracking.{IsLocal}
use mnvkd.Tests.Pools.{heap, pool}
use mnvkd.Tests.Tables.{table}

-- Its coroutine 1 waits for socket 4.
abbrev blocked_process : Local
blocked_process = record process {
  run = false;
  blocked = true;
  run_q = [];
  blocked_q = 4 ∷ [];
  threads = λ i. record (process.threads i) { run_enq = false };
  sockets = λ i. record (process.sockets i) { blocked_enq = i == 4 };
}

blocked-IsLocal : IsLocal blocked_process
blocked-IsLocal = record {
  runs = record { says = λ i. refl; once = refl };
  blocks = record { says = λ i. ground arith; once = refl };
  run_says = refl;
  blocked_says = refl;
}

abbrev member_process : ℕ → Process
member_process i = record {
  fds = record { proc_id = i; allocated_fds = [] };
  pool_entry_id = 0;
  pool = none;
  run_qed = i == 1;
  blocked_qed = i == 0;
  has_local = true;
  local = blocked_process;
  heap = heap;
  privileged = false;
  isolated = false;
}

abbrev kern : Kern
kern = record {
  procs = member_process;
  run_procs = 1 ∷ [];
  blocked_procs = 0 ∷ [];
  fd_table = table false;
  proc_pool = pool;
  pools = λ i. pool;
  failed = false;
  shutdown_requested = true;
  faulted = false;
}

kern-IsKern : IsKern kern
kern-IsKern = record {
  named = λ i. refl;
  runs = record { says = λ i. ground arith; once = refl };
  blocks = record { says = λ i. ground arith; once = refl };
}

abbrev calls : Calls
calls = record {
  func = ending;
  sys = sys;
  continue = none;
  enter = true;
  exit = true;
  munmap = true;
  free_func = λ i. true;
  line = 7;
  counter = pos 0;
  fuel = 9;
}

abbrev world : World
world = record {
  calls = λ n. calls;
  signals = λ n. 0;
  wait = λ n t. (t, true);
  zero_local = blocked_process;
  zero_heap = heap;
  line = 7;
  counter = pos 0;
}

flush-follows_example :
    IsKern (flush_proc_queues kern 0)
    × (member 0 (flush_proc_queues kern 0).run_procs ≡ not (is_nil blocked_process.run_q))
    × (member 0 (flush_proc_queues kern 0).blocked_procs ≡ not (is_nil blocked_process.blocked_q))
flush-follows_example = flush-follows kern 0 kern-IsKern blocked-IsLocal refl

postpoll-IsKern_example : IsKern (postpoll world 9 0 kern).0
postpoll-IsKern_example = postpoll-IsKern world 9 0 kern kern-IsKern

one_queued : member 1 (prepoll 7 (pos 0) kern).run_procs ≡ true
unfolding prepoll interrupt_process interrupt_socket flush_proc_queues enqueue_run enqueue_blocked
    drop_run drop_blocked raise_at enqueue_thread ready is_ready drop_socket set_rx_blocked
    set_tx_blocked set_raised init_block
one_queued = refl

prepoll-run_procs_example : member 1 kern.run_procs ≡ true
prepoll-run_procs_example = prepoll-run_procs 7 (pos 0) kern 1 one_queued
