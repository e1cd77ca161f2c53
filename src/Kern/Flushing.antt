-- ===== src/Kern/Flushing.antt =====
-- What flushing the queues of a process does.
use mnvkd.Base.{
  ◌∷◌, ℕ, Bool, true, false, not, ◌==◌, if◌then◌else◌, if_true, member, ◌≡◌, refl, ap, ◌∙◌, arith,
}
use mnvkd.Queue.{remove, is_nil}
use mnvkd.Local.Tracking.{IsLocal}
use mnvkd.Kern.State.{Process, Kern, put_process}
use mnvkd.Kern.Queues.{
  enqueue_run, enqueue_blocked, drop_run, drop_blocked, flush_run, flush_blocked, flush_proc_queues,
}
use mnvkd.Kern.Tracking.{
  IsKern, if-IsKern, enqueue_run-IsKern, enqueue_blocked-IsKern, drop_run-IsKern,
  drop_blocked-IsKern,
}

flush_run-IsKern : {k : Kern} (i : ℕ) → IsKern k → IsKern (flush_run k i)
flush_run-IsKern {k} i v =
    if-IsKern (((k.procs i).local).run) (enqueue_run-IsKern i v) (drop_run-IsKern i v)

flush_blocked-IsKern : {k : Kern} (i : ℕ) → IsKern k → IsKern (flush_blocked k i)
flush_blocked-IsKern {k} i v =
    if-IsKern (((k.procs i).local).blocked) (enqueue_blocked-IsKern i v) (drop_blocked-IsKern i v)

pub flush-IsKern : {k : Kern} (i : ℕ) → IsKern k → IsKern (flush_proc_queues k i)
unfolding flush_proc_queues
flush-IsKern {k} i v =
    if-IsKern (k.procs i).has_local (flush_blocked-IsKern i (flush_run-IsKern i v))
      (record { named = v.named; runs = v.runs; blocks = v.blocks })

-- The process after each operation on one queue.
put_at : (k : Kern) (i : ℕ) (p : Process) → (put_process k i p).procs i ≡ p
put_at k i p = if_true (i == i) p (k.procs i) (ground arith)

abbrev with_run : Process → Bool → Process
with_run p b = record p { run_qed = b }

abbrev with_blocked : Process → Bool → Process
with_blocked p b = record p { blocked_qed = b }

module _ (k : Kern) (i : ℕ) where
  enqueue_run_if :
      (b : Bool)
      → (k.procs i).run_qed ≡ b
      → (if not b
            then record (put_process k i (with_run (k.procs i) true)) {
              run_procs = i ∷ k.run_procs;
            }
            else k).procs
          i
        ≡ with_run (k.procs i) true
  enqueue_run_if true e = ap (with_run (k.procs i)) e
  enqueue_run_if false e = put_at k i (with_run (k.procs i) true)

  drop_run_if :
      (b : Bool)
      → (k.procs i).run_qed ≡ b
      → (if b
            then record (put_process k i (with_run (k.procs i) false)) {
              run_procs = remove i k.run_procs;
            }
            else k).procs
          i
        ≡ with_run (k.procs i) false
  drop_run_if true e = put_at k i (with_run (k.procs i) false)
  drop_run_if false e = ap (with_run (k.procs i)) e

  enqueue_blocked_if :
      (b : Bool)
      → (k.procs i).blocked_qed ≡ b
      → (if not b
            then record (put_process k i (with_blocked (k.procs i) true)) {
              blocked_procs = i ∷ k.blocked_procs;
            }
            else k).procs
          i
        ≡ with_blocked (k.procs i) true
  enqueue_blocked_if true e = ap (with_blocked (k.procs i)) e
  enqueue_blocked_if false e = put_at k i (with_blocked (k.procs i) true)

  drop_blocked_if :
      (b : Bool)
      → (k.procs i).blocked_qed ≡ b
      → (if b
            then record (put_process k i (with_blocked (k.procs i) false)) {
              blocked_procs = remove i k.blocked_procs;
            }
            else k).procs
          i
        ≡ with_blocked (k.procs i) false
  drop_blocked_if true e = put_at k i (with_blocked (k.procs i) false)
  drop_blocked_if false e = ap (with_blocked (k.procs i)) e

  run_if :
      (b : Bool) → (if b then enqueue_run k i else drop_run k i).procs i ≡ with_run (k.procs i) b
  unfolding enqueue_run drop_run
  run_if true = enqueue_run_if (k.procs i).run_qed refl
  run_if false = drop_run_if (k.procs i).run_qed refl

  blocked_if :
      (b : Bool)
      → (if b then enqueue_blocked k i else drop_blocked k i).procs i ≡ with_blocked (k.procs i) b
  unfolding enqueue_blocked drop_blocked
  blocked_if true = enqueue_blocked_if (k.procs i).blocked_qed refl
  blocked_if false = drop_blocked_if (k.procs i).blocked_qed refl

flush_at :
    (k : Kern) (i : ℕ)
    → (k.procs i).has_local ≡ true
    → (flush_proc_queues k i).procs i
      ≡ with_blocked (with_run (k.procs i) ((k.procs i).local).run) ((k.procs i).local).blocked
unfolding flush_proc_queues
flush_at k i h =
    ap (λ m. m.procs i) (if_true (k.procs i).has_local (flush_blocked (flush_run k i) i) _ h)
    ∙ (blocked_if (flush_run k i) i (((flush_run k i).procs i).local).blocked
        ∙ ap (λ p. with_blocked p (p.local).blocked) (run_if k i ((k.procs i).local).run))

-- Flushing the queues of a process leaves the kernel's queues what the flags of its processes say,
-- and has the process on the queue to run exactly where its own queue of coroutines is not empty,
-- and on the blocked one exactly where its own queue of sockets is not empty: for a process that has
-- its local part, with queues as its flags say, of a kernel whose queues are as the flags say.
pub flush-follows :
    (k : Kern) (i : ℕ)
    → IsKern k
    → IsLocal (k.procs i).local
    → (k.procs i).has_local ≡ true
    → IsKern (flush_proc_queues k i)
      × (member i (flush_proc_queues k i).run_procs ≡ not (is_nil ((k.procs i).local).run_q))
      × (member i (flush_proc_queues k i).blocked_procs
          ≡ not (is_nil ((k.procs i).local).blocked_q))
flush-follows k i v w h =
    let after = flush-IsKern i v in
    (
      after,
      after.runs.says i ∙ (ap (λ p. p.run_qed) (flush_at k i h) ∙ w.run_says),
      after.blocks.says i ∙ (ap (λ p. p.blocked_qed) (flush_at k i h) ∙ w.blocked_says),
    )
