-- ===== src/Kern/Retiring.antt =====
-- Dispatching a process, and retiring it once it is on no queue, keep the queues of the kernel what
-- the flags of its processes say.
use mnvkd.Base.{
  if_true, if_false, subst, sym, ap, ltb, ◌==◌, ◌∙◌, Bool-cases, inl, inr, ℕ, Bool, true, false,
  not, if◌then◌else◌, Option, some, none, ◌≡◌, refl, arith,
}
use mnvkd.Heap.{Heap, heap_enter, heap_exit}
use mnvkd.Pool.{get_entry, free_entry}
use mnvkd.FdTable.Prepoll.{prepoll_zombie}
use mnvkd.Local.State.{Local}
use mnvkd.Local.Execute.{Run, finished, broken, out_of_fuel}
use mnvkd.Kern.State.{Process, Kern, put_process, proc_clear}
use mnvkd.Kern.Queues.{flush_proc_queues, is_zombie}
use mnvkd.Kern.Process.{Calls}
use mnvkd.Kern.Dispatch.{
  kern_execute_proc, leave, leave_freed, free_in_pool, free_memory, clear_entry, free_proc,
  after_free, retire, settle, after_execution, dispatch_proc,
}
use mnvkd.Kern.Tracking.{IsKern, put_process-IsKern}
use mnvkd.Kern.Flushing.{flush-IsKern}
use mnvkd.Kern.Upkeep.{table-IsKern, choose-IsKern, kern_execute_proc-IsKern, retire_all-id}

leave-IsKern : (calls : Calls) {k : Kern} (i : ℕ) → IsKern k → IsKern (leave calls k i).0
leave-IsKern calls {k} i v =
    put_process-IsKern i (record (k.procs i) { heap = (heap_exit (k.procs i).heap calls.exit).0 })
      refl refl refl v

leave_freed-IsKern :
    (calls : Calls) (r : Kern × Bool) (i : ℕ) → IsKern r.0 → IsKern (leave_freed calls r i).0
leave_freed-IsKern calls (k, true) i v = leave-IsKern calls i v
leave_freed-IsKern calls (k, false) i v = v

free_memory-IsKern :
    (calls : Calls) {k : Kern} (i : ℕ) (o : Option ℕ)
    → IsKern k
    → IsKern (free_memory calls k i o).0
free_memory-IsKern calls i none v = v
free_memory-IsKern calls {k} i (some q) v =
    leave_freed-IsKern calls (free_in_pool calls k i q) i
      (record { named = v.named; runs = v.runs; blocks = v.blocks })

-- A process that is on no queue, whose place in the kernel may be cleared.
Idle : Kern → ℕ → Type 0
Idle k i = ((k.procs i).run_qed ≡ false) × ((k.procs i).blocked_qed ≡ false)

put_Idle :
    (k : Kern) (i : ℕ) (p : Process)
    → p.run_qed ≡ (k.procs i).run_qed
    → p.blocked_qed ≡ (k.procs i).blocked_qed
    → Idle k i
    → Idle (put_process k i p) i
unfolding Idle
put_Idle k i p hr hb (r, b) =
    let at : (put_process k i p).procs i ≡ p = if_true (i == i) p (k.procs i) (ground arith) in
    (ap (λ q. q.run_qed) at ∙ (hr ∙ r), ap (λ q. q.blocked_qed) at ∙ (hb ∙ b))

leave-Idle : (calls : Calls) (k : Kern) (i : ℕ) → Idle k i → Idle (leave calls k i).0 i
leave-Idle calls k i d =
    put_Idle k i (record (k.procs i) { heap = (heap_exit (k.procs i).heap calls.exit).0 }) refl refl
      d

leave_freed-Idle :
    (calls : Calls) (r : Kern × Bool) (i : ℕ) → Idle r.0 i → Idle (leave_freed calls r i).0 i
leave_freed-Idle calls (k, true) i d = leave-Idle calls k i d
leave_freed-Idle calls (k, false) i d = d

free_memory-Idle :
    (calls : Calls) (k : Kern) (i : ℕ) (o : Option ℕ)
    → Idle k i
    → Idle (free_memory calls k i o).0 i
unfolding Idle
free_memory-Idle calls k i none d = d
free_memory-Idle calls k i (some q) d = leave_freed-Idle calls (free_in_pool calls k i q) i d

module _ (zero_local : Local) (zero_heap : Heap) where
  clear_if-IsKern :
      (k : Kern) (i : ℕ) (b : Bool)
      → IsKern k
      → Idle k i
      → IsKern
          (clear_entry zero_local zero_heap k (if b then some (k.procs i).fds.proc_id else none))
  unfolding Idle proc_clear
  clear_if-IsKern k i true v (r, b) =
      subst (λ j. IsKern (put_process k j (proc_clear zero_local zero_heap (k.procs j))))
        (sym (v.named i))
        (put_process-IsKern i (proc_clear zero_local zero_heap (k.procs i)) (sym r) (sym b) refl v)
  clear_if-IsKern k i false v d = v

  free_proc-IsKern :
      (k : Kern) (i : ℕ) → IsKern k → Idle k i → IsKern (free_proc zero_local zero_heap k i)
  unfolding free_proc get_entry Idle
  free_proc-IsKern k i v d =
      let entry = get_entry k.proc_pool (k.procs i).fds.proc_id in
      let k1 = record k { proc_pool = (free_entry (λ _. true) k.proc_pool entry).0 } in
      clear_if-IsKern k1 i (ltb (k.procs i).fds.proc_id k.proc_pool.object_count)
        (record { named = v.named; runs = v.runs; blocks = v.blocks }) d

  after_free-IsKern :
      (i : ℕ) (r : Kern × Run)
      → IsKern r.0
      → Idle r.0 i
      → IsKern (after_free zero_local zero_heap i r).0
  after_free-IsKern i (k, finished) v d = free_proc-IsKern k i v d
  after_free-IsKern i (k, broken) v d = v
  after_free-IsKern i (k, out_of_fuel) v d = v

  retire-IsKern :
      (calls : Calls) (k : Kern) (i : ℕ)
      → IsKern k
      → Idle k i
      → IsKern (retire zero_local zero_heap calls k i).0
  unfolding prepoll_zombie Idle
  retire-IsKern calls k i v d =
      let out = prepoll_zombie k.fd_table (k.procs i).fds in
      let p = record (k.procs i) { fds = out.1 } in
      let k1 = put_process (record k { fd_table = out.0 }) i p in
      let v1 =
        put_process-IsKern i p refl refl
          (retire_all-id ((k.procs i).fds).allocated_fds k.fd_table (k.procs i).fds)
          (table-IsKern v out.0) in
      let d1 = put_Idle (record k { fd_table = out.0 }) i p refl refl d in
      after_free-IsKern i (free_memory calls k1 i (k1.procs i).pool)
        (free_memory-IsKern calls i (k1.procs i).pool v1)
        (free_memory-Idle calls k1 i (k1.procs i).pool d1)

  zombie_Idle : (k : Kern) (i : ℕ) → is_zombie (k.procs i) ≡ true → Idle k i
  unfolding Idle is_zombie
  zombie_Idle k i h = (ground arith, ground arith)

  settle-IsKern :
      (calls : Calls) (k : Kern) (i : ℕ)
      → IsKern k
      → IsKern (settle zero_local zero_heap calls k i).0
  settle-IsKern calls k i v =
      let other = if (k.procs i).isolated then leave calls k i else (k, finished) in
      let w =
        choose-IsKern (leave calls k i) (k, finished) (k.procs i).isolated (leave-IsKern calls i v)
          v in
      elim (Bool-cases (is_zombie (k.procs i))) [
        | inl e ↦
            subst (λ r. IsKern r.0)
              (sym
                (if_true (is_zombie (k.procs i)) (retire zero_local zero_heap calls k i) other e))
              (retire-IsKern calls k i v (zombie_Idle k i e))
        | inr e ↦
            subst (λ r. IsKern r.0)
              (sym
                (if_false (is_zombie (k.procs i)) (retire zero_local zero_heap calls k i) other e))
              w
      ]

  after_execution-IsKern :
      (calls : Calls) (i : ℕ) (r : Kern × Run)
      → IsKern r.0
      → IsKern (after_execution zero_local zero_heap calls i r).0
  after_execution-IsKern calls i (k, finished) v =
      settle-IsKern calls (flush_proc_queues k i) i (flush-IsKern i v)
  after_execution-IsKern calls i (k, broken) v = v
  after_execution-IsKern calls i (k, out_of_fuel) v = v

  pub dispatch_proc-IsKern :
      (calls : Calls) {k : Kern} (i : ℕ)
      → IsKern k
      → IsKern (dispatch_proc zero_local zero_heap calls k i).0
  unfolding dispatch_proc
  dispatch_proc-IsKern calls {k} i v =
      let out = heap_enter (k.procs i).heap calls.enter in
      let p = record (k.procs i) { heap = out.0 } in
      let v1 = put_process-IsKern i p refl refl refl v in
      let k1 = put_process k i p in
      choose-IsKern (k1, broken)
        (after_execution zero_local zero_heap calls i (kern_execute_proc calls k1 i)) (not out.2) v1
        (after_execution-IsKern calls i (kern_execute_proc calls k1 i)
          (kern_execute_proc-IsKern calls i v1))
