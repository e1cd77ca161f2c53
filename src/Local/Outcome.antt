-- ===== src/Local/Outcome.antt =====
-- The execution of a process: what it keeps, and how it ends.
use mnvkd.Base.{
  ℕ, zero, suc, Bool, true, false, if◌then◌else◌, Option, some, none, ok, fail, einval, Checked,
}
use mnvkd.Stack.{Stack, pop}
use mnvkd.Thread.{
  Status, proc_run, proc_yield, proc_listen, proc_wait, proc_err, proc_end, ready, is_ready,
  is_yielding, is_completed,
}
use mnvkd.Local.State.{Local}
use mnvkd.Local.Queues.{dequeue_run, drop_blocked_for}
use mnvkd.Local.Handlers.{Sys, Handled}
use mnvkd.Local.Execute.{
  Func, wait_result, unblock_status, unblock, pop_frame, deinit, end_thread, turn, Run, finished,
  broken, out_of_fuel, after_turn, popped, while_ready, run_turns, resume_yielding, after_thread,
  run_dequeued, execute,
}
use mnvkd.Local.Tracking.{
  IsLocal, if-IsLocal, put_thread-IsLocal, ready_flag, drop_run-IsLocal, drop_blocked_for-IsLocal,
  Dequeued, dequeue_run-IsLocal,
}
use mnvkd.Local.Handling.{errno-IsLocal, socket_handler-IsLocal}

-- The parts of the state that the queues do not speak of.
running-IsLocal : {l : Local} (o : Option ℕ) → IsLocal l → IsLocal (record l { running_cr = o })
running-IsLocal o v = record {
  runs = v.runs;
  blocks = v.blocks;
  run_says = v.run_says;
  blocked_says = v.blocked_says;
}

popped-IsLocal : {l : Local} (c : Checked Stack) → IsLocal l → IsLocal (popped l c)
popped-IsLocal (ok s) v = record {
  runs = v.runs;
  blocks = v.blocks;
  run_says = v.run_says;
  blocked_says = v.blocked_says;
}
popped-IsLocal (fail e) v = errno-IsLocal e v

pop_frame-IsLocal : {l : Local} → IsLocal l → IsLocal (pop_frame l)
unfolding pop_frame
pop_frame-IsLocal {l} v = popped-IsLocal (pop l.words l.stack) v

end_thread-IsLocal : {l : Local} (i : ℕ) → IsLocal l → IsLocal (end_thread l i)
unfolding end_thread deinit
end_thread-IsLocal {l} i v =
    let v1 = pop_frame-IsLocal (pop_frame-IsLocal (drop_blocked_for-IsLocal i v)) in
    if-IsLocal ((pop_frame (pop_frame (drop_blocked_for l i))).threads i).run_enq
      (drop_run-IsLocal i v1) v1

wait_result-IsLocal :
    (sys : ℕ → Sys) {l : Local} (o : Option ℕ) → IsLocal l → IsLocal (wait_result sys l o).0
wait_result-IsLocal sys none v = errno-IsLocal einval v
wait_result-IsLocal sys {l} (some s) v = socket_handler-IsLocal sys l s v

unblock_status-IsLocal :
    (sys : ℕ → Sys) {l : Local} (i : ℕ) (st : Status)
    → IsLocal l
    → IsLocal (unblock_status sys l i st).0
unblock_status-IsLocal sys {l} i proc_wait v =
    wait_result-IsLocal sys (l.threads i).waiting_socket v
unblock_status-IsLocal sys i proc_run v = v
unblock_status-IsLocal sys i proc_yield v = v
unblock_status-IsLocal sys i proc_listen v = v
unblock_status-IsLocal sys i proc_err v = v
unblock_status-IsLocal sys i proc_end v = v

resume_yielding-IsLocal : {l : Local} (i : ℕ) → IsLocal l → IsLocal (resume_yielding l i)
unfolding resume_yielding
resume_yielding-IsLocal {l} i v =
    if-IsLocal (is_yielding (l.threads i))
      (put_thread-IsLocal i (ready (l.threads i)) (ready_flag (l.threads i)) v) v

first-IsLocal :
    (h k : Handled) (b : Bool) → IsLocal h.0 → IsLocal k.0 → IsLocal (if b then h else k).0
first-IsLocal h k true v w = v
first-IsLocal h k false v w = w

turn-IsLocal :
    (func : Func) (sys : ℕ → Sys)
    → ((l : Local) (i : ℕ) → IsLocal l → IsLocal (func l i))
    → (l : Local) (i : ℕ) → IsLocal l
    → IsLocal (turn func sys l i).0
unfolding turn unblock
turn-IsLocal func sys keeps l i v =
    let l1 = record (func (record l { running_cr = some i }) i) { running_cr = none } in
    let v1 =
      running-IsLocal none
        (keeps (record l { running_cr = some i }) i (running-IsLocal (some i) v)) in
    first-IsLocal (end_thread l1 i, true) (unblock sys l1 i) (is_completed (l1.threads i))
      (end_thread-IsLocal i v1) (unblock_status-IsLocal sys i (l1.threads i).status v1)

-- What every step of an execution keeps, the execution keeps.
module _ (func : Func) (sys : ℕ → Sys) (P : Local → Type 0)
    (dequeue_keeps : (l : Local) → P l → Dequeued (λ _ k. P k) (dequeue_run l))
    (turn_keeps : (l : Local) (i : ℕ) → P l → P (turn func sys l i).0)
    (resume_keeps : (l : Local) (i : ℕ) → P l → P (resume_yielding l i)) where
  after_turn_keeps :
      (next : Local → Local × Run)
      → ((l : Local) → P l → P (next l).0)
      → (h : Handled) → P h.0
      → P (after_turn next h).0
  after_turn_keeps next f (l, true) p = f l p
  after_turn_keeps next f (l, false) p = p

  while_ready_keeps :
      (next : Local → Local × Run)
      → ((l : Local) → P l → P (next l).0)
      → (i : ℕ) (l : Local) (b : Bool) → P l
      → P (while_ready next (λ k. turn func sys k i) l b).0
  while_ready_keeps next f i l true p =
      after_turn_keeps next f (turn func sys l i) (turn_keeps l i p)
  while_ready_keeps next f i l false p = p

  run_turns_keeps : (fuel i : ℕ) (l : Local) → P l → P (run_turns fuel func sys i l).0
  unfolding run_turns
  run_turns_keeps zero i l p = p
  run_turns_keeps (suc fuel) i l p =
      while_ready_keeps (run_turns fuel func sys i) (run_turns_keeps fuel i) i l
        (is_ready (l.threads i)) p

  after_thread_keeps :
      (next : Local → Local × Run)
      → ((l : Local) → P l → P (next l).0)
      → (i : ℕ) (r : Local × Run) → P r.0
      → P (after_thread next i r).0
  after_thread_keeps next f i (l, finished) p = f (resume_yielding l i) (resume_keeps l i p)
  after_thread_keeps next f i (l, broken) p = p
  after_thread_keeps next f i (l, out_of_fuel) p = p

  run_dequeued_keeps :
      (next : Local → Local × Run)
      → ((l : Local) → P l → P (next l).0)
      → (fuel : ℕ) (l : Local) (d : Option (ℕ × Local)) → P l
      → Dequeued (λ _ k. P k) d
      → P (run_dequeued next (run_turns fuel func sys) l d).0
  run_dequeued_keeps next f fuel l none p q = p
  run_dequeued_keeps next f fuel l (some (i, k)) p q =
      after_thread_keeps next f i (run_turns fuel func sys i k) (run_turns_keeps fuel i k q)

  pub execute_keeps : (fuel : ℕ) (l : Local) → P l → P (execute fuel func sys l).0
  unfolding execute
  execute_keeps zero l p = p
  execute_keeps (suc fuel) l p =
      run_dequeued_keeps (execute fuel func sys) (execute_keeps fuel) (suc fuel) l (dequeue_run l) p
        (dequeue_keeps l p)

-- The execution of a process keeps its queues what the flags of its coroutines and sockets say, and
-- its two flags what its queues say, wherever the functions of its coroutines keep that: whatever
-- the system calls do, and whether the execution finishes, breaks off or is cut off.
pub execute-IsLocal :
    (func : Func) (sys : ℕ → Sys)
    → ((l : Local) (i : ℕ) → IsLocal l → IsLocal (func l i))
    → (fuel : ℕ) (l : Local) → IsLocal l
    → IsLocal (execute fuel func sys l).0
execute-IsLocal func sys keeps =
    execute_keeps func sys IsLocal (λ l v. dequeue_run-IsLocal v) (turn-IsLocal func sys keeps)
      (λ l i v. resume_yielding-IsLocal i v)
