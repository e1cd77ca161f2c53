-- ===== src/FdTable/Epoll.antt =====
-- The epoll driver, vk_fd_table_epoll. `ctl` is `epoll_ctl` as the result for an entry (each is
-- registered at most once in a call), and `waits` are the results of the calls of `epoll_wait`.
use mnvkd.Base.{
  ℕ, zero, suc, Bool, true, false, ◌||◌, if◌then◌else◌, ◌==◌, Option, some, none, List, [], ◌∷◌,
  length, Checked, ok, fail, eintr, eagain,
}
use mnvkd.FdTable.State.{Bits, no_bits, Fd, FdTable, get, put_fd}
use mnvkd.FdTable.Queues.{dequeue_dirty}
use mnvkd.FdTable.Events.{process_fd, clean_fd}

-- `struct epoll_event` with the bits that the code sets.
pub record EpollEvent : Type 0 where
  pub fd : ℕ
  pub epollin : Bool
  pub epollout : Bool
  pub epollrdhup : Bool
  pub epollhup : Bool
  pub epollerr : Bool
  pub epollet : Bool
  pub epolloneshot : Bool

abbrev pub no_events : ℕ → EpollEvent
no_events fd = record {
  fd = fd;
  epollin = false;
  epollout = false;
  epollrdhup = false;
  epollhup = false;
  epollerr = false;
  epollet = false;
  epolloneshot = false;
}

pub data CtlOp : Type 0 where
  ctl_add : CtlOp
  ctl_mod : CtlOp

-- `epoll_ctl` at an operation, a descriptor and an event: the errno of a failure.
abbrev pub Ctl : Type 0
Ctl = CtlOp → ℕ → EpollEvent → Option ℕ

unfoldable pub edge_event : Fd → EpollEvent
edge_event d = record (no_events d.fd) {
  epollin = true;
  epollout = true;
  epollrdhup = true;
  epollet = true;
}

-- Level triggering: the assignment for POLLIN replaces the one for POLLOUT.
unfoldable pub level_event : Fd → EpollEvent
level_event d =
    let ev = no_events d.fd in
    let ev1 =
      if d.ioft_pre.events.pollout
      then record ev { epollout = true; epolloneshot = true }
      else ev in
    if d.ioft_pre.events.pollin
    then record (no_events d.fd) { epollin = true; epolloneshot = true }
    else ev1

abbrev pub forget_events : Fd → Fd
forget_events d = record d { ioft_post = record (d.ioft_post) { events = no_bits } }

-- What registering does to an entry, and the errno of a failure, which ends the call.
unfoldable pub register_edge : Ctl → Fd → Fd × Option ℕ
register_edge ctl d =
    if d.closed
    then (forget_events d, none)
    else (if d.added then (d, none) else (elim (ctl ctl_add d.fd (edge_event d)) [
      | none ↦ (record d { ioft_post = d.ioft_pre; added = true }, none)
      | some e ↦ (d, some e)
    ]))

unfoldable pub register_level : Ctl → Fd → Fd × Option ℕ
register_level ctl d =
    if d.closed
    then (forget_events d, none)
    else (elim (ctl (if d.added then ctl_mod else ctl_add) d.fd (level_event d)) [
      | none ↦ (record d { ioft_post = d.ioft_pre; added = true }, none)
      | some e ↦ (record d { added = true }, some e)
    ])

abbrev pub register : Bool → Ctl → Fd → Fd × Option ℕ
register edge ctl d = if edge then register_edge ctl d else register_level ctl d

-- After an entry is registered, the loop goes on by `next` or ends with the errno.
abbrev pub go_on : (FdTable → FdTable × Option ℕ) → FdTable → ℕ → Fd × Option ℕ → FdTable × Option ℕ
go_on next t i (d, none) = next (put_fd t i d)
go_on next t i (d, some e) = (put_fd t i d, some e)

abbrev pub register_dequeued :
    (FdTable → FdTable × Option ℕ) → Ctl → FdTable → Option (ℕ × FdTable) → FdTable × Option ℕ
register_dequeued next ctl t none = (t, none)
register_dequeued next ctl t (some (i, t1)) =
    go_on next t1 i (register t1.edge_triggered ctl (t1.fds i))

-- The loop over the dirty queue; the fuel is the length of the queue.
unfoldable pub register_dirty : ℕ → Ctl → FdTable → FdTable × Option ℕ
register_dirty zero ctl t = (t, none)
register_dirty (suc fuel) ctl t =
    register_dequeued (register_dirty fuel ctl) ctl t (dequeue_dirty t)

-- The calls of `epoll_wait` go on while there is no event or a call was interrupted.
unfoldable pub wait_events : List (Checked (List EpollEvent)) → Option (Checked (List EpollEvent))
wait_events [] = none
wait_events (ok [] ∷ waits) = wait_events waits
wait_events (ok (ev ∷ evs) ∷ waits) = some (ok (ev ∷ evs))
wait_events (fail e ∷ waits) =
    let rest = wait_events waits in if (e == eintr) || (e == eagain) then rest else some (fail e)

unfoldable pub returned : EpollEvent → Bits
returned ev = record {
  pollin = ev.epollin;
  pollout = ev.epollout;
  pollhup = ev.epollhup;
  pollrdhup = ev.epollrdhup;
  pollerr = ev.epollerr;
}

unfoldable pub dispatch_event : FdTable → ℕ → EpollEvent → FdTable
dispatch_event t i ev =
    let d = t.fds i in
    let t1 = put_fd t i (record d { ioft_post = record (d.ioft_post) { revents = returned ev } }) in
    clean_fd (process_fd t1 i) i

-- The result is whether every event was for an entry of the table.
unfoldable pub dispatch_events : FdTable → List EpollEvent → FdTable × Bool
dispatch_events t [] = (t, true)
dispatch_events t (ev ∷ evs) = elim (get t ev.fd) [
  | none ↦ (t, false)
  | some i ↦ dispatch_events (dispatch_event t i ev) evs
]

-- How the call of the driver ends, and the table it leaves.
pub data Outcome : Type 0 where
  done : Outcome
  failed : Outcome
  waiting : Outcome

unfoldable pub after_wait : FdTable → Option (Checked (List EpollEvent)) → FdTable × Outcome
after_wait t none = (t, waiting)
after_wait t (some (fail e)) = (t, failed)
after_wait t (some (ok evs)) =
    let (t1, all) = dispatch_events (record t { epoll_event_count = length evs }) evs in
    (t1, if all then done else failed)

abbrev pub after_register :
    List (Checked (List EpollEvent)) → FdTable × Option ℕ → FdTable × Outcome
after_register waits (t, none) = after_wait t (wait_events waits)
after_register waits (t, some e) = (t, failed)

-- `create` is the result of `epoll_create1`.
unfoldable pub open_epoll : Checked ℕ → FdTable → Checked FdTable
open_epoll create t = if t.epoll_initialized then ok t else (elim create [
  | ok fd ↦ ok (record t { epoll_fd = fd; epoll_initialized = true })
  | fail e ↦ fail e
])

unfoldable pub epoll :
    Checked ℕ → Ctl → List (Checked (List EpollEvent)) → FdTable → FdTable × Outcome
epoll create ctl waits t = elim (open_epoll create t) [
  | ok t1 ↦ after_register waits (register_dirty (length t1.dirty_fds) ctl t1)
  | fail e ↦ (t, failed)
]
