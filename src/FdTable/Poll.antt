-- ===== src/FdTable/Poll.antt =====
-- The poll driver, vk_fd_table_poll, at the `VK_FD_MAX` entries of its array. `pending` is
-- `vk_kern_pending`, and `waits` are the results of the calls of `poll`, each the array with the
-- returned events.
use mnvkd.Base.{
  ℕ, ℤ, to_size, Bool, true, false, not, ◌&&◌, ◌||◌, if◌then◌else◌, ◌==◌, ltb, Option, some, none,
  List, [], ◌∷◌, ◌++◌, length, Checked, ok, fail, eintr, eagain,
}
use mnvkd.FdTable.State.{Bits, any_bits, IoFuture, FdTable, get, put_fd}
use mnvkd.FdTable.Events.{process_fd, clean_fd}
use mnvkd.FdTable.Epoll.{Outcome, done, failed, waiting}

abbrev pub fd_max : ℕ
fd_max = 16384

-- `struct pollfd`
pub record PollFd : Type 0 where
  pub fd : ℤ
  pub events : Bits
  pub revents : Bits

abbrev pub event_of : IoFuture → PollFd
event_of f = record { fd = f.fd; events = f.events; revents = f.revents }

abbrev pub collect_fd : FdTable → List PollFd → ℕ → FdTable × List PollFd
collect_fd t polls i =
    let t1 = clean_fd t i in
    let d = t1.fds i in
    if ltb (length polls) fd_max && (not d.closed && any_bits d.ioft_pre.events)
    then (put_fd t1 i (record d { ioft_post = d.ioft_pre }), polls ++ event_of d.ioft_pre ∷ [])
    else (t1, polls)

-- The loop over the dirty queue. Cleaning an entry takes at most this entry off the queue, and its
-- link still leads to the next.
unfoldable pub collect : FdTable → List PollFd → List ℕ → FdTable × List PollFd
collect t polls [] = (t, polls)
collect t polls (i ∷ is) = let (t1, polls1) = collect_fd t polls i in collect t1 polls1 is

unfoldable pub wait_polls : List (Checked (ℕ × List PollFd)) → Option (Checked (List PollFd))
wait_polls [] = none
wait_polls (ok (n, polls) ∷ waits) =
    let rest = wait_polls waits in if n == 0 then rest else some (ok polls)
wait_polls (fail e ∷ waits) =
    let rest = wait_polls waits in if (e == eintr) || (e == eagain) then rest else some (fail e)

unfoldable pub dispatch_poll : FdTable → ℕ → PollFd → FdTable
dispatch_poll t i polled =
    let d = t.fds i in
    process_fd
      (put_fd t i (record d {
        ioft_post = record (d.ioft_post) {
          fd = polled.fd;
          events = polled.events;
          revents = polled.revents;
        };
      }))
      i

unfoldable pub dispatch_polls : FdTable → List PollFd → FdTable × Bool
dispatch_polls t [] = (t, true)
dispatch_polls t (polled ∷ polls) = elim (get t (to_size polled.fd)) [
  | none ↦ (t, false)
  | some i ↦ dispatch_polls (dispatch_poll t i polled) polls
]

unfoldable pub after_poll : FdTable → Option (Checked (List PollFd)) → FdTable × Outcome
after_poll t none = (t, waiting)
after_poll t (some (fail e)) = (t, failed)
after_poll t (some (ok polls)) =
    let (t1, all) = dispatch_polls t polls in (t1, if all then done else failed)

unfoldable pub poll : Bool → List (Checked (ℕ × List PollFd)) → FdTable → FdTable × Outcome
poll pending waits t =
    let (t1, polls) = collect t [] t.dirty_fds in
    if not pending then (t1, done) else after_poll t1 (wait_polls waits)
