-- ===== src/Local/Execute.antt =====
-- The execution of a process: vk_unblock, vk_proc_local_raise_signal, vk_proc_local_retry_socket,
-- vk_proc_local_execute and vk_proc_local_execute_isolated. `func` calls the function of a coroutine,
-- which is the application's code: it may change all that its process holds, and nothing else, so
-- it does not stand for vk_service_listener, which allocates processes of the kernel and flushes them.
use mnvkd.Base.{
  ℕ, zero, suc, ℤ, Bool, true, false, ◌||◌, if◌then◌else◌, Option, some, none, Checked, ok, fail,
  einval,
}
use mnvkd.Stack.{Stack, pop}
use mnvkd.Vectoring.State.{set_rx_blocked, set_tx_blocked}
use mnvkd.Thread.{
  Status, proc_run, proc_yield, proc_listen, proc_wait, proc_err, proc_end, ready, is_ready,
  is_yielding, is_completed,
}
use mnvkd.Socket.{Socket}
use mnvkd.Local.State.{Local, put_thread, put_socket, through}
use mnvkd.Local.Queues.{enqueue_run, drop_run, drop_blocked, drop_blocked_for, dequeue_run}
use mnvkd.Local.Waking.{raise_at}
use mnvkd.Local.Handlers.{Sys, Handled, socket_handler}

abbrev pub efault : ℕ
efault = 14

abbrev pub Func : Type 0
Func = Local → ℕ → Local

abbrev pub wait_result : (ℕ → Sys) → Local → Option ℕ → Handled
wait_result sys l none = (record l { errno = einval }, false)
wait_result sys l (some s) = socket_handler sys l s

abbrev pub unblock_status : (ℕ → Sys) → Local → ℕ → Status → Handled
unblock_status sys l i proc_wait = wait_result sys l (l.threads i).waiting_socket
unblock_status sys l i proc_run = (l, true)
unblock_status sys l i proc_yield = (l, true)
unblock_status sys l i proc_listen = (l, true)
unblock_status sys l i proc_err = (l, true)
unblock_status sys l i proc_end = (l, true)

unfoldable pub unblock : (ℕ → Sys) → Local → ℕ → Handled
unblock sys l i = unblock_status sys l i (l.threads i).status

abbrev pub popped : Local → Checked Stack → Local
popped l (ok s) = record l { stack = s }
popped l (fail e) = record l { errno = e }

-- Of the two `vk_stack_pop` of `vk_deinit` one: its result is not looked at.
unfoldable pub pop_frame : Local → Local
pop_frame l = popped l (pop l.words l.stack)

unfoldable pub deinit : Local → Local
deinit l = pop_frame (pop_frame l)

unfoldable pub end_thread : Local → ℕ → Local
end_thread l i =
    let l1 = deinit (drop_blocked_for l i) in if (l1.threads i).run_enq then drop_run l1 i else l1

-- One call of a ready coroutine, and what follows it.
unfoldable pub turn : Func → (ℕ → Sys) → Local → ℕ → Handled
turn func sys l i =
    let l1 = record (func (record l { running_cr = some i }) i) { running_cr = none } in
    if is_completed (l1.threads i) then (end_thread l1 i, true) else unblock sys l1 i

-- How an execution ends; the code has no fuel.
pub data Run : Type 0 where
  finished : Run
  broken : Run
  out_of_fuel : Run

abbrev pub after_turn : (Local → Local × Run) → Handled → Local × Run
after_turn next (l, true) = next l
after_turn next (l, false) = (l, broken)

abbrev pub while_ready : (Local → Local × Run) → (Local → Handled) → Local → Bool → Local × Run
while_ready next step l true = after_turn next (step l)
while_ready next step l false = (l, finished)

-- The inner loop, while the coroutine is ready.
unfoldable pub run_turns : ℕ → Func → (ℕ → Sys) → ℕ → Local → Local × Run
run_turns zero func sys i l = (l, out_of_fuel)
run_turns (suc fuel) func sys i l =
    while_ready (run_turns fuel func sys i) (λ k. turn func sys k i) l (is_ready (l.threads i))

unfoldable pub resume_yielding : Local → ℕ → Local
resume_yielding l i = if is_yielding (l.threads i) then put_thread l i (ready (l.threads i)) else l

abbrev pub after_thread : (Local → Local × Run) → ℕ → Local × Run → Local × Run
after_thread next i (l, finished) = next (resume_yielding l i)
after_thread next i (l, broken) = (l, broken)
after_thread next i (l, out_of_fuel) = (l, out_of_fuel)

abbrev pub run_dequeued :
    (Local → Local × Run) → (ℕ → Local → Local × Run) → Local → Option (ℕ × Local) → Local × Run
run_dequeued next turns l none = (l, finished)
run_dequeued next turns l (some (i, l1)) = after_thread next i (turns i l1)

unfoldable pub execute : ℕ → Func → (ℕ → Sys) → Local → Local × Run
execute zero func sys l = (l, out_of_fuel)
execute (suc fuel) func sys l =
    run_dequeued (execute fuel func sys) (run_turns (suc fuel) func sys) l (dequeue_run l)

-- `continue` stands for `vk_isolate_continue`, which calls a function inside the isolate.
unfoldable pub execute_isolated : (Func → Func) → ℕ → Func → (ℕ → Sys) → Local → Local × Run
execute_isolated continue fuel func sys l = execute fuel (continue func) sys l

abbrev pub signalled : Option ℕ → ℕ → ℕ
signalled none i = i
signalled (some supervisor) i = supervisor

abbrev pub raise_running : Local → ℕ → ℤ → Option ℕ → Local × Bool
raise_running l line counter none = (l, false)
raise_running l line counter (some i) =
    let there = signalled l.supervisor_cr i in
    (raise_at (enqueue_run l there) there efault line counter, true)

-- `line` and `counter` are those of the macro `vk_raise_at` in the source.
unfoldable pub raise_signal : Local → ℕ → ℤ → Local × Bool
raise_signal l line counter = raise_running l line counter l.running_cr

-- The rings are no longer blocked where the poller has returned an event for them.
unfoldable pub apply_events : Socket → Socket
apply_events s =
    let rx = s.block.ioft_rx_ret.revents in
    let tx = s.block.ioft_tx_ret.revents in
    record s {
      rx = if rx.pollin || rx.pollrdhup || rx.pollerr then set_rx_blocked s.rx false else s.rx;
      tx = if tx.pollout || tx.pollhup then set_tx_blocked s.tx false else s.tx;
    }

abbrev pub after_retry : ℕ → Option ℕ → Handled → Handled
after_retry s that (l, false) = (l, false)
after_retry s that (l, true) =
    let l1 = drop_blocked l s in (through l1 that (λ i. enqueue_run l1 i), true)

unfoldable pub retry_socket : (ℕ → Sys) → Local → ℕ → Handled
retry_socket sys l s =
    after_retry s ((l.sockets s).block.blocked_vk)
      (socket_handler sys (put_socket l s (apply_events (l.sockets s))) s)
