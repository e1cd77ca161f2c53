-- ===== src/Kern/Shutdown.antt =====
-- What is lost between the parts of the kernel: the wake-up of a blocked process on a shutdown, and the
-- failure of a process.
use mnvkd.Base.{
  if_false, ℕ, ℤ, Bool, true, false, not, ◌==◌, if◌then◌else◌, if_true, member, List, [], ◌∷◌, ◌≡◌,
  refl, ap, ◌∙◌, subst, arith,
}
use mnvkd.Queue.{remove}
use mnvkd.Local.Execute.{finished, broken, out_of_fuel}
use mnvkd.Kern.State.{Kern, put_process}
use mnvkd.Kern.Queues.{
  enqueue_run, enqueue_blocked, drop_run, drop_blocked, flush_run, flush_blocked, flush_proc_queues,
}
use mnvkd.Kern.Process.{Calls, proc_execute}
use mnvkd.Kern.Dispatch.{
  interrupt_sockets, interrupt_process, interrupt_all, prepoll, exhausted, execute_mainline,
  after_mainline, kern_execute_proc,
}

-- A queue has no more than another.
abbrev Within : List ℕ → List ℕ → Type 0
Within xs ys = (j : ℕ) → member j xs ≡ true → member j ys ≡ true

within_remove : (i j : ℕ) (xs : List ℕ) → member j (remove i xs) ≡ true → member j xs ≡ true
within_remove i j [] h = h
within_remove i j (x ∷ xs) h = ground (arith, within_remove i j xs)

-- Where a process is flagged as on the queue to run, nothing puts it there.
flagged_run :
    (k : Kern) (i : ℕ) (a b : Bool)
    → (k.procs i).run_qed ≡ a
    → a ≡ true
    → Within (if b then enqueue_run k i else drop_run k i).run_procs k.run_procs
unfolding enqueue_run drop_run
flagged_run k i a true e t j h =
    subst (λ m. member j m.run_procs ≡ true)
      (if_false (not (k.procs i).run_qed) _ k (ap not (e ∙ t))) h
flagged_run k i a false e t j h =
    within_remove i j k.run_procs
      (subst (λ m. member j m.run_procs ≡ true) (if_true (k.procs i).run_qed _ k (e ∙ t)) h)

either :
    (m k : Kern) (b : Bool)
    → m.run_procs ≡ k.run_procs
    → (if b then m else k).run_procs ≡ k.run_procs
either m k true e = e
either m k false e = refl

flush_blocked_runs :
    (k : Kern) (i : ℕ) (b : Bool)
    → (if b then enqueue_blocked k i else drop_blocked k i).run_procs ≡ k.run_procs
unfolding enqueue_blocked drop_blocked
flush_blocked_runs k i true = either _ k (not (k.procs i).blocked_qed) refl
flush_blocked_runs k i false = either _ k (k.procs i).blocked_qed refl

flush_flagged :
    (k : Kern) (i : ℕ) (b : Bool)
    → (k.procs i).run_qed ≡ true
    → Within
        (if b then flush_blocked (flush_run k i) i else record k { faulted = true }).run_procs
        k.run_procs
flush_flagged k i true e j h = flagged_run k i true ((k.procs i).local).run e refl j (
    subst (λ xs. member j xs ≡ true)
      (flush_blocked_runs (flush_run k i) i ((((flush_run k i).procs i).local).blocked)) h)
flush_flagged k i false e j h = h

interrupt-Within :
    (line : ℕ) (counter : ℤ) (k : Kern) (i : ℕ)
    → Within (interrupt_process line counter k i).run_procs k.run_procs
unfolding interrupt_process flush_proc_queues
interrupt-Within line counter k i =
    let p = record (k.procs i) { run_qed = true } in
    let l = interrupt_sockets line counter p.local (p.local).blocked_q in
    let q = record p { local = l } in
    let k1 = put_process k i q in
    flush_flagged k1 i (k1.procs i).has_local
      (ap (λ r. r.run_qed) (if_true (i == i) q (k.procs i) (ground arith)))

interrupt_all-Within :
    (line : ℕ) (counter : ℤ) (xs : List ℕ) (k : Kern)
    → Within (interrupt_all line counter k xs).run_procs k.run_procs
interrupt_all-Within line counter [] k j h = h
interrupt_all-Within line counter (i ∷ xs) k j h =
    interrupt-Within line counter k i j
      (interrupt_all-Within line counter xs (interrupt_process line counter k i) j h)

whether :
    (k m : Kern) (b : Bool)
    → Within m.run_procs k.run_procs
    → Within (if b then k else m).run_procs k.run_procs
whether k m true w j h = h
whether k m false w j h = w j h

-- Prepolling puts no process on the queue to run: a process that is there afterwards was there before,
-- also where a shutdown was requested and coroutines of blocked processes were queued with EINTR.
pub prepoll-run_procs :
    (line : ℕ) (counter : ℤ) (k : Kern) (j : ℕ)
    → member j (prepoll line counter k).run_procs ≡ true
    → member j k.run_procs ≡ true
unfolding prepoll
prepoll-run_procs line counter k j h =
    whether k (interrupt_all line counter k k.blocked_procs) (not k.shutdown_requested)
      (interrupt_all-Within line counter k.blocked_procs k) j h

mainline_end :
    (k : Kern) (b : Bool)
    → k.failed ≡ false
    → (after_mainline (k, b)).1 ≡ (if b then out_of_fuel else finished)
mainline_end k true h = refl
mainline_end k false h = ap (λ f. if f then broken else finished) h

-- The kernel's execution of a process fails on no input: it finishes, also where the execution of the
-- process has failed, unless the fuel of the execution is used up.
kern_execute_proc-finishes :
    (calls : Calls) (k : Kern) (i : ℕ)
    → (kern_execute_proc calls k i).1
      ≡ (if exhausted (proc_execute calls k i).1 then out_of_fuel else finished)
unfolding kern_execute_proc execute_mainline
kern_execute_proc-finishes calls k i =
    mainline_end (execute_mainline calls k i).0 (exhausted (proc_execute calls k i).1) refl
