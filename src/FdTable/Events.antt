-- ===== src/FdTable/Events.antt =====
-- What the poller reports: vk_fd_table_process_fd and vk_fd_table_clean_fd.
use mnvkd.Base.{ℕ, Bool, true, not, ◌&&◌, ◌||◌, if◌then◌else◌}
use mnvkd.FdTable.State.{and_bits, xor_bits, any_bits, same_bits, IoFuture, Fd, FdTable, put_fd}
use mnvkd.FdTable.Queues.{enqueue_fresh, drop_dirty, drop_fresh}

-- The polled state of an I/O future.
unfoldable pub mark_polled : IoFuture → IoFuture
mark_polled f = record f {
  readable = if f.revents.pollin then 1 else f.readable;
  writable = if f.revents.pollout then 1 else f.writable;
  rx_closed = f.revents.pollhup || f.revents.pollerr || f.rx_closed;
  tx_closed = f.revents.pollrdhup || f.tx_closed;
}

-- The events that are returned are no longer asked for.
unfoldable pub drop_returned : FdTable → ℕ → FdTable
drop_returned t i =
    let d = t.fds i in
    let left = xor_bits d.ioft_pre.events (and_bits d.ioft_ret.revents d.ioft_ret.events) in
    let t1 = put_fd t i (record d { ioft_pre = record (d.ioft_pre) { events = left } }) in
    if same_bits (and_bits d.ioft_pre.events d.ioft_ret.revents) d.ioft_pre.events
    then (if not (any_bits left) then drop_dirty t1 i else t1)
    else t

unfoldable pub process_fd : FdTable → ℕ → FdTable
process_fd t i =
    let d = t.fds i in
    let post = mark_polled d.ioft_post in
    let t1 = put_fd t i (record d { ioft_post = post; ioft_ret = post }) in
    drop_returned (if any_bits post.revents then enqueue_fresh t1 i else t1) i

abbrev pub close_future : IoFuture → IoFuture
close_future f = record f { rx_closed = true; tx_closed = true }

abbrev pub drop_zombie : FdTable → ℕ → FdTable
drop_zombie t i = if (t.fds i).zombie then drop_fresh (drop_dirty t i) i else t

abbrev pub close_fd : FdTable → ℕ → FdTable
close_fd t i =
    let d = t.fds i in
    let t1 =
      drop_dirty
        (put_fd t i (record d {
          closed = true;
          ioft_post = close_future d.ioft_post;
          ioft_ret = close_future d.ioft_ret;
        }))
        i in
    if not d.zombie then enqueue_fresh t1 i else t1

abbrev pub closing : Fd → Bool
closing d = not d.closed && (d.zombie || (d.ioft_pre.rx_closed && d.ioft_pre.tx_closed))

unfoldable pub clean_fd : FdTable → ℕ → FdTable
clean_fd t i = let t1 = drop_zombie t i in if closing (t1.fds i) then close_fd t1 i else t1
