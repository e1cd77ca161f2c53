-- ===== src/Kern/Queues.antt =====
-- The queues of the kernel: vk_kern_enqueue_*, vk_kern_drop_*, vk_kern_dequeue_*,
-- vk_kern_flush_proc_queues and vk_kern_pending.
use mnvkd.Base.{
  ℕ, Bool, true, false, not, ◌&&◌, ◌||◌, if◌then◌else◌, Option, some, none, List, [], ◌∷◌,
}
use mnvkd.Queue.{remove, is_nil}
use mnvkd.Kern.State.{Process, Kern, put_process}

unfoldable pub enqueue_run : Kern → ℕ → Kern
enqueue_run k i =
    if not (k.procs i).run_qed
    then record (put_process k i (record (k.procs i) { run_qed = true })) {
      run_procs = i ∷ k.run_procs;
    }
    else k

unfoldable pub enqueue_blocked : Kern → ℕ → Kern
enqueue_blocked k i =
    if not (k.procs i).blocked_qed
    then record (put_process k i (record (k.procs i) { blocked_qed = true })) {
      blocked_procs = i ∷ k.blocked_procs;
    }
    else k

unfoldable pub drop_run : Kern → ℕ → Kern
drop_run k i =
    if (k.procs i).run_qed
    then record (put_process k i (record (k.procs i) { run_qed = false })) {
      run_procs = remove i k.run_procs;
    }
    else k

unfoldable pub drop_blocked : Kern → ℕ → Kern
drop_blocked k i =
    if (k.procs i).blocked_qed
    then record (put_process k i (record (k.procs i) { blocked_qed = false })) {
      blocked_procs = remove i k.blocked_procs;
    }
    else k

abbrev pub dequeue_run_from : Kern → List ℕ → Option (ℕ × Kern)
dequeue_run_from k [] = none
dequeue_run_from k (i ∷ rest) =
    some (i, record (put_process k i (record (k.procs i) { run_qed = false })) { run_procs = rest })

unfoldable pub dequeue_run : Kern → Option (ℕ × Kern)
dequeue_run k = dequeue_run_from k k.run_procs

abbrev pub dequeue_blocked_from : Kern → List ℕ → Option (ℕ × Kern)
dequeue_blocked_from k [] = none
dequeue_blocked_from k (i ∷ rest) = some (
  i,
  record (put_process k i (record (k.procs i) { blocked_qed = false })) { blocked_procs = rest },
)

unfoldable pub dequeue_blocked : Kern → Option (ℕ × Kern)
dequeue_blocked k = dequeue_blocked_from k k.blocked_procs

-- The two halves of `vk_kern_flush_proc_queues`.
abbrev pub flush_run : Kern → ℕ → Kern
flush_run k i = if ((k.procs i).local).run then enqueue_run k i else drop_run k i

abbrev pub flush_blocked : Kern → ℕ → Kern
flush_blocked k i = if ((k.procs i).local).blocked then enqueue_blocked k i else drop_blocked k i

unfoldable pub flush_proc_queues : Kern → ℕ → Kern
flush_proc_queues k i =
    if (k.procs i).has_local then flush_blocked (flush_run k i) i else record k { faulted = true }

unfoldable pub pending : Kern → Bool
pending k = not (is_nil k.run_procs && is_nil k.blocked_procs)

-- `vk_proc_is_zombie`
unfoldable pub is_zombie : Process → Bool
is_zombie p = not (p.run_qed || p.blocked_qed)
