-- ===== src/FdTable/Polling.antt =====
-- The poll driver keeps the table's queues.
use mnvkd.Base.{
  ℕ, to_size, Bool, true, false, not, ◌&&◌, ltb, List, [], ◌∷◌, length, Option, some, none, Checked,
  ok, fail, refl, Bool-cases, inl, inr,
}
use mnvkd.FdTable.State.{FdTable, get, any_bits}
use mnvkd.FdTable.Events.{clean_fd}
use mnvkd.FdTable.Poll.{
  PollFd, collect, collect_fd, fd_max, dispatch_poll, dispatch_polls, wait_polls, after_poll, poll,
}
use mnvkd.FdTable.Tracking.{IsTable}
use mnvkd.FdTable.Preserve.{put_fd-IsTable, process_fd-IsTable, clean_fd-IsTable}

collect_fd-IsTable :
    (t : FdTable) (polls : List PollFd) (i : ℕ) → IsTable t → IsTable (collect_fd t polls i).0
collect_fd-IsTable t polls i v =
    let v1 = clean_fd-IsTable i v in
    let d = (clean_fd t i).fds i in
    let v2 = put_fd-IsTable i (record d { ioft_post = d.ioft_pre }) refl refl v1 in
    elim (Bool-cases (ltb (length polls) fd_max && (not d.closed && any_bits d.ioft_pre.events))) [
      | inl e ↦ rw e v2
      | inr e ↦ rw e v1
    ]

collect-IsTable :
    (is : List ℕ) (t : FdTable) (polls : List PollFd) → IsTable t → IsTable (collect t polls is).0
unfolding collect
collect-IsTable [] t polls v = v
collect-IsTable (i ∷ is) t polls v =
    collect-IsTable is (collect_fd t polls i).0 (collect_fd t polls i).1
      (collect_fd-IsTable t polls i v)

dispatch_polls-IsTable :
    (polls : List PollFd) (t : FdTable) → IsTable t → IsTable (dispatch_polls t polls).0
unfolding dispatch_polls dispatch_poll get
dispatch_polls-IsTable [] t v = v
dispatch_polls-IsTable (polled ∷ polls) t v =
    let i = to_size polled.fd in
    let post = record ((t.fds i).ioft_post) {
      fd = polled.fd;
      events = polled.events;
      revents = polled.revents;
    } in
    let v1 = put_fd-IsTable i (record (t.fds i) { ioft_post = post }) refl refl v in
    let rest = dispatch_polls-IsTable polls (dispatch_poll t i polled) (process_fd-IsTable i v1) in
    elim (Bool-cases (ltb i t.size)) [
      | inl e ↦ rw (dispatch_polls, get, e) rest
      | inr e ↦ rw (dispatch_polls, get, e) v
    ]

after_poll-IsTable :
    (t : FdTable) (o : Option (Checked (List PollFd))) → IsTable t → IsTable (after_poll t o).0
unfolding after_poll
after_poll-IsTable t none v = v
after_poll-IsTable t (some (fail e)) v = v
after_poll-IsTable t (some (ok polls)) v = dispatch_polls-IsTable polls t v

-- On a table whose queues are what the flags of its entries say, a call of the poll driver keeps
-- that, whatever the results of every poll are.
poll-IsTable :
    (pending : Bool) (waits : List (Checked (ℕ × List PollFd))) (t : FdTable)
    → IsTable t
    → IsTable (poll pending waits t).0
unfolding poll
poll-IsTable true waits t v =
    after_poll-IsTable (collect t [] t.dirty_fds).0 (wait_polls waits)
      (collect-IsTable t.dirty_fds t [] v)
poll-IsTable false waits t v = collect-IsTable t.dirty_fds t [] v
