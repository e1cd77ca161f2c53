-- ===== src/Kern/State.antt =====
-- struct vk_kern and struct vk_proc. A process is named by its id. `faulted` tells that a NULL pointer
-- was followed, after which the state is as before.
use mnvkd.Base.{ℕ, Bool, false, if◌then◌else◌, ◌==◌, Option, none, List, []}
use mnvkd.Heap.{Heap}
use mnvkd.Pool.{Pool}
use mnvkd.FdTable.State.{FdTable}
use mnvkd.FdTable.Prepoll.{Proc}
use mnvkd.Local.State.{Local, local_init}

pub record Process : Type 0 where
  pub fds : Proc
  pub pool_entry_id : ℕ
  pub pool : Option ℕ
  pub run_qed : Bool
  pub blocked_qed : Bool
  pub has_local : Bool
  pub local : Local
  pub heap : Heap
  pub privileged : Bool
  pub isolated : Bool

pub record Kern : Type 0 where
  pub procs : ℕ → Process
  pub run_procs : List ℕ
  pub blocked_procs : List ℕ
  pub fd_table : FdTable
  pub proc_pool : Pool
  pub pools : ℕ → Pool
  pub failed : Bool
  pub shutdown_requested : Bool
  pub faulted : Bool

abbrev pub put_process : Kern → ℕ → Process → Kern
put_process k i p = record k { procs = λ j. if j == i then p else k.procs j }

-- `vk_proc_init`
unfoldable pub proc_init : Process → Process
proc_init p = record p { run_qed = false; blocked_qed = false; local = local_init p.local }

-- `vk_proc_clear`: all is 0 but the id. `zero_local` and `zero_heap` are what zeroed memory is.
unfoldable pub proc_clear : Local → Heap → Process → Process
proc_clear zero_local zero_heap p = record {
  fds = record (p.fds) { allocated_fds = [] };
  pool_entry_id = 0;
  pool = none;
  run_qed = false;
  blocked_qed = false;
  has_local = false;
  local = zero_local;
  heap = zero_heap;
  privileged = false;
  isolated = false;
}
