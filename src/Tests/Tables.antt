-- ===== src/Tests/Tables.antt =====
-- A table of eight entries, of which entry 3 is dirty: it waits for reads and writes, and a write
-- is returned.
use mnvkd.Base.{
  ℕ, ◌≡◌, refl, arith, Bool, true, false, ◌==◌, [], ◌∷◌, member, pos, some, none, ok, fail, eintr,
}
use mnvkd.FdTable.State.{Bits, no_bits, IoFuture, Fd, FdTable}
use mnvkd.FdTable.Events.{process_fd, clean_fd}
use mnvkd.FdTable.Prepoll.{Proc}
use mnvkd.FdTable.Epoll.{Ctl, EpollEvent, no_events, register_dirty, epoll}
use mnvkd.FdTable.Tracking.{IsTable}
use mnvkd.FdTable.Epolling.{Registered, register_dirty_lem, epoll-IsTable}
use mnvkd.FdTable.Waking.{process_fd_wakes}
use mnvkd.FdTable.Lifecycle.{clean_zombie}

abbrev writes : Bits
writes = record no_bits { pollout = true }

abbrev both : Bits
both = record writes { pollin = true }

abbrev future : ℕ → IoFuture
future i = record {
  socket = some 1;
  fd = pos i;
  events = both;
  revents = writes;
  readable = 0;
  writable = 0;
  rx_closed = false;
  tx_closed = false;
}

abbrev entry : Bool → ℕ → Fd
entry zombie i = record {
  fd = i;
  proc_id = 7;
  closed = false;
  zombie = zombie;
  added = false;
  allocated = i == 3;
  dirty_qed = i == 3;
  fresh_qed = false;
  ioft_post = future i;
  ioft_pre = future i;
  ioft_ret = future i;
}

abbrev pub table : Bool → FdTable
table zombie = record {
  size = 8;
  dirty_fds = 3 ∷ [];
  fresh_fds = [];
  edge_triggered = false;
  epoll_initialized = false;
  epoll_fd = 0;
  epoll_event_count = 0;
  fds = entry zombie;
}

table-IsTable : (zombie : Bool) → IsTable (table zombie)
table-IsTable zombie = record {
  dirty = record { says = λ i. ground arith; once = refl };
  fresh = record { says = λ i. refl; once = refl };
}

abbrev proc : Proc
proc = record { proc_id = 7; allocated_fds = 3 ∷ [] }

abbrev accepting : Ctl
accepting op fd ev = none

abbrev event : EpollEvent
event = record (no_events 3) { epollout = true }

register_dirty_lem_example : Registered (register_dirty 1 accepting (table false))
register_dirty_lem_example =
    register_dirty_lem 1 accepting (table false) (omega arith) (table-IsTable false)

epoll-IsTable_example :
    IsTable (epoll (ok 9) accepting (fail eintr ∷ ok (event ∷ []) ∷ []) (table false)).0
epoll-IsTable_example =
    epoll-IsTable (ok 9) accepting (fail eintr ∷ ok (event ∷ []) ∷ []) (table false)
      (table-IsTable false)

clean_zombie_example :
    (member 3 (clean_fd (table true) 3).dirty_fds ≡ false)
    × (member 3 (clean_fd (table true) 3).fresh_fds ≡ false)
    × (((clean_fd (table true) 3).fds 3).closed ≡ true)
clean_zombie_example = clean_zombie 3 (table-IsTable true) refl

process_fd_wakes_example : member 3 (process_fd (table false) 3).fresh_fds ≡ true
process_fd_wakes_example = process_fd_wakes 3 (table-IsTable false)
