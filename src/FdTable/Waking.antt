-- ===== src/FdTable/Waking.antt =====
-- Which entries vk_fd_table_process_fd puts on the fresh queue.
use mnvkd.Base.{ℕ, List, Bool, true, false, not, ◌||◌, if◌then◌else◌, member, ◌≡◌, refl, ap, ◌∙◌}
use mnvkd.FdTable.State.{FdTable, Fd, put_fd, any_bits, same_bits, and_bits, xor_bits}
use mnvkd.FdTable.Queues.{enqueue_fresh, drop_dirty}
use mnvkd.FdTable.Events.{drop_returned, process_fd, mark_polled}
use mnvkd.FdTable.Tracking.{IsTable}
use mnvkd.FdTable.Preserve.{put_fd-IsTable, enqueue_fresh-IsTable}
use mnvkd.FdTable.Lifecycle.{enqueue_fresh_entry}

if_fresh :
    (b : Bool) (t u : FdTable) (xs : List ℕ)
    → t.fresh_fds ≡ xs
    → u.fresh_fds ≡ xs
    → (if b then t else u).fresh_fds ≡ xs
if_fresh true t u xs h k = h
if_fresh false t u xs h k = k

drop_returned_fresh : (t : FdTable) (i : ℕ) → (drop_returned t i).fresh_fds ≡ t.fresh_fds
unfolding drop_returned drop_dirty
drop_returned_fresh t i =
    let d = t.fds i in
    let left = xor_bits d.ioft_pre.events (and_bits d.ioft_ret.revents d.ioft_ret.events) in
    let t1 = put_fd t i (record d { ioft_pre = record (d.ioft_pre) { events = left } }) in
    if_fresh (same_bits (and_bits d.ioft_pre.events d.ioft_ret.revents) d.ioft_pre.events) _ t _
      (if_fresh (not (any_bits left)) _ t1 _ (if_fresh (t1.fds i).dirty_qed _ t1 _ refl refl) refl)
      refl

-- In a table whose queues are what the flags of its entries say, after the events of an entry are
-- processed the fresh queue has it exactly where an event was returned or it was there before.
pub process_fd_wakes :
    {t : FdTable} (i : ℕ)
    → IsTable t
    → member i (process_fd t i).fresh_fds
      ≡ (any_bits ((t.fds i).ioft_post.revents) || member i t.fresh_fds)
unfolding process_fd mark_polled
process_fd_wakes {t} i v =
    let post = mark_polled ((t.fds i).ioft_post) in
    let d = record (t.fds i) { ioft_post = post; ioft_ret = post } in
    let t1 = put_fd t i d in
    let v2 = enqueue_fresh-IsTable i (put_fd-IsTable i d refl refl v) in
    let woken : member i (enqueue_fresh t1 i).fresh_fds ≡ true =
      v2.fresh.says i ∙ ap {A = Fd} (λ e. e.fresh_qed) (enqueue_fresh_entry t1 i) in
    ap (λ xs. member i xs)
      (drop_returned_fresh (if any_bits post.revents then enqueue_fresh t1 i else t1) i)
    ∙ choose (any_bits post.revents) t1 woken
  where
    choose :
        (b : Bool) (u : FdTable)
        → member i (enqueue_fresh u i).fresh_fds ≡ true
        → member i (if b then enqueue_fresh u i else u).fresh_fds ≡ (b || member i u.fresh_fds)
    choose true u w = w
    choose false u w = refl
