-- ===== src/Local/Queues.antt =====
-- The two queues: vk_proc_local_enqueue_*, vk_proc_local_drop_* and vk_proc_local_dequeue_*.
use mnvkd.Base.{
  ℕ, Bool, true, false, not, ◌&&◌, if◌then◌else◌, ◌==◌, Option, some, none, List, [], ◌∷◌,
}
use mnvkd.Queue.{remove, is_nil}
use mnvkd.Thread.{ready, is_ready}
use mnvkd.Local.State.{Local, put_thread, put_socket}

unfoldable pub is_zombie : Local → Bool
is_zombie l = is_nil l.run_q && is_nil l.blocked_q

abbrev pub insert_run : Local → ℕ → Local
insert_run l i = record (put_thread l i (record (l.threads i) { run_enq = true })) {
  run_q = i ∷ l.run_q;
  run = if is_nil l.run_q then true else l.run;
}

unfoldable pub enqueue_run : Local → ℕ → Local
enqueue_run l i =
    let l1 = put_thread l i (ready (l.threads i)) in
    if is_ready (l1.threads i) && not (l1.threads i).run_enq then insert_run l1 i else l1

abbrev pub insert_blocked : Local → ℕ → Local
insert_blocked l s = record (put_socket l s (record (l.sockets s) { blocked_enq = true })) {
  blocked_q = s ∷ l.blocked_q;
  blocked = if is_nil l.blocked_q then true else l.blocked;
}

unfoldable pub enqueue_blocked : Local → ℕ → Local
enqueue_blocked l s = if not (l.sockets s).blocked_enq then insert_blocked l s else l

abbrev pub remove_run : Local → ℕ → Local
remove_run l i =
    if (l.threads i).run_enq
    then record (put_thread l i (record (l.threads i) { run_enq = false })) {
      run_q = remove i l.run_q;
    }
    else l

-- The process is not to run where the queue is empty.
abbrev pub settle_run : Local → Local
settle_run l = record l { run = if is_nil l.run_q then false else l.run }

unfoldable pub drop_run : Local → ℕ → Local
drop_run l i = settle_run (remove_run l i)

abbrev pub remove_blocked : Local → ℕ → Local
remove_blocked l s =
    if (l.sockets s).blocked_enq
    then record (put_socket l s (record (l.sockets s) { blocked_enq = false })) {
      blocked_q = remove s l.blocked_q;
    }
    else l

abbrev pub settle_blocked : Local → Local
settle_blocked l = record l { blocked = if is_nil l.blocked_q then false else l.blocked }

unfoldable pub drop_blocked : Local → ℕ → Local
drop_blocked l s = settle_blocked (remove_blocked l s)

abbrev pub is_thread : Option ℕ → ℕ → Bool
is_thread none i = false
is_thread (some j) i = j == i

-- The loop over the blocked sockets as they are when it begins; an entry is left before it is
-- dropped.
abbrev pub drop_each : Local → ℕ → List ℕ → Local
drop_each l i [] = l
drop_each l i (s ∷ rest) =
    drop_each (if is_thread ((l.sockets s).block.blocked_vk) i then drop_blocked l s else l) i rest

unfoldable pub drop_blocked_for : Local → ℕ → Local
drop_blocked_for l i = drop_each l i l.blocked_q

abbrev pub dequeue_run_from : Local → List ℕ → Option (ℕ × Local)
dequeue_run_from l [] = none
dequeue_run_from l (i ∷ rest) = some (
  i,
  settle_run (record (put_thread l i (record (l.threads i) { run_enq = false })) { run_q = rest }),
)

unfoldable pub dequeue_run : Local → Option (ℕ × Local)
dequeue_run l = dequeue_run_from l l.run_q

abbrev pub dequeue_blocked_from : Local → List ℕ → Option (ℕ × Local)
dequeue_blocked_from l [] = none
dequeue_blocked_from l (s ∷ rest) = some (
  s,
  settle_blocked
      (record (put_socket l s (record (l.sockets s) { blocked_enq = false })) { blocked_q = rest }),
)

unfoldable pub dequeue_blocked : Local → Option (ℕ × Local)
dequeue_blocked l = dequeue_blocked_from l l.blocked_q
