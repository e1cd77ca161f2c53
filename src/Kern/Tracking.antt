-- ===== src/Kern/Tracking.antt =====
-- The invariant of the kernel's queues, and the operations on one queue.
use mnvkd.Base.{
  ◌==◌, if_true, if_false, ap, ◌∙◌, arith, ℕ, Bool, true, false, if◌then◌else◌, List, [], ◌∷◌, ◌≡◌,
  refl, subst, Option, some, none, Bool-cases, inl, inr,
}
use mnvkd.Queue.{
  Tracks, Tracks-same, Tracks-insert, Tracks-remove, Tracks-dequeue, set-flag, set-kept,
}
use mnvkd.Kern.State.{Process, Kern, put_process}
use mnvkd.Kern.Queues.{
  enqueue_run, enqueue_blocked, drop_run, drop_blocked, dequeue_run_from, dequeue_run,
}

-- Both queues are what the flags of the processes say, and each process has its id.
pub record IsKern (k : Kern) : Type 0 where
  pub named : (i : ℕ) → (k.procs i).fds.proc_id ≡ i
  pub runs : Tracks k.run_procs (λ i. (k.procs i).run_qed)
  pub blocks : Tracks k.blocked_procs (λ i. (k.procs i).blocked_qed)

pub if-IsKern : {k m : Kern} (b : Bool) → IsKern k → IsKern m → IsKern (if b then k else m)
if-IsKern true v w = v
if-IsKern false v w = w

named_kept :
    (procs : ℕ → Process) (i : ℕ) (p : Process)
    → p.fds.proc_id ≡ (procs i).fds.proc_id
    → ((j : ℕ) → (procs j).fds.proc_id ≡ j)
    → (j : ℕ) → (if j == i then p else procs j).fds.proc_id ≡ j
named_kept procs i p h n j = elim (Bool-cases (j == i)) [
  | inl e ↦
      let same : i ≡ j = ground arith in
      ap (λ q. q.fds.proc_id) (if_true (j == i) p (procs j) e) ∙ (h ∙ (n i ∙ same))
  | inr e ↦ ap (λ q. q.fds.proc_id) (if_false (j == i) p (procs j) e) ∙ n j
]

-- A write of a process that leaves its id and its two flags.
pub put_process-IsKern :
    {k : Kern} (i : ℕ) (p : Process)
    → p.run_qed ≡ (k.procs i).run_qed
    → p.blocked_qed ≡ (k.procs i).blocked_qed
    → p.fds.proc_id ≡ (k.procs i).fds.proc_id
    → IsKern k
    → IsKern (put_process k i p)
put_process-IsKern {k} i p hr hb hn v = record {
  named = named_kept k.procs i p hn v.named;
  runs = Tracks-same (set-kept k.procs i p (λ q. q.run_qed) hr) v.runs;
  blocks = Tracks-same (set-kept k.procs i p (λ q. q.blocked_qed) hb) v.blocks;
}

module _ {k : Kern} (i : ℕ) (v : IsKern k) where
  pub enqueue_run-IsKern : IsKern (enqueue_run k i)
  unfolding enqueue_run
  enqueue_run-IsKern = elim (Bool-cases (k.procs i).run_qed) [
    | inl e ↦ rw e v
    | inr e ↦
        let p = record (k.procs i) { run_qed = true } in
        rw e (record {
          named = named_kept k.procs i p refl v.named;
          runs =
              Tracks-same (set-flag k.procs i p (λ q. q.run_qed) true refl)
                (Tracks-insert i e v.runs);
          blocks = Tracks-same (set-kept k.procs i p (λ q. q.blocked_qed) refl) v.blocks;
        })
  ]

  pub enqueue_blocked-IsKern : IsKern (enqueue_blocked k i)
  unfolding enqueue_blocked
  enqueue_blocked-IsKern = elim (Bool-cases (k.procs i).blocked_qed) [
    | inl e ↦ rw e v
    | inr e ↦
        let p = record (k.procs i) { blocked_qed = true } in
        rw e (record {
          named = named_kept k.procs i p refl v.named;
          runs = Tracks-same (set-kept k.procs i p (λ q. q.run_qed) refl) v.runs;
          blocks =
              Tracks-same (set-flag k.procs i p (λ q. q.blocked_qed) true refl)
                (Tracks-insert i e v.blocks);
        })
  ]

  pub drop_run-IsKern : IsKern (drop_run k i)
  unfolding drop_run
  drop_run-IsKern = elim (Bool-cases (k.procs i).run_qed) [
    | inl e ↦
        let p = record (k.procs i) { run_qed = false } in
        rw e (record {
          named = named_kept k.procs i p refl v.named;
          runs =
              Tracks-same (set-flag k.procs i p (λ q. q.run_qed) false refl)
                (Tracks-remove i v.runs);
          blocks = Tracks-same (set-kept k.procs i p (λ q. q.blocked_qed) refl) v.blocks;
        })
    | inr e ↦ rw e v
  ]

  pub drop_blocked-IsKern : IsKern (drop_blocked k i)
  unfolding drop_blocked
  drop_blocked-IsKern = elim (Bool-cases (k.procs i).blocked_qed) [
    | inl e ↦
        let p = record (k.procs i) { blocked_qed = false } in
        rw e (record {
          named = named_kept k.procs i p refl v.named;
          runs = Tracks-same (set-kept k.procs i p (λ q. q.run_qed) refl) v.runs;
          blocks =
              Tracks-same (set-flag k.procs i p (λ q. q.blocked_qed) false refl)
                (Tracks-remove i v.blocks);
        })
    | inr e ↦ rw e v
  ]

-- What a dequeue leaves.
abbrev pub Taken : Option (ℕ × Kern) → Type 0
Taken none = Unit {0}
Taken (some (i, k)) = IsKern k

dequeue_from-IsKern :
    {k : Kern} (xs : List ℕ) → k.run_procs ≡ xs → IsKern k → Taken (dequeue_run_from k xs)
dequeue_from-IsKern [] e v = tt
dequeue_from-IsKern {k} (i ∷ rest) e v =
    let p = record (k.procs i) { run_qed = false } in
    record {
      named = named_kept k.procs i p refl v.named;
      runs =
          Tracks-same (set-flag k.procs i p (λ q. q.run_qed) false refl)
            (Tracks-dequeue (subst (λ xs. Tracks xs (λ j. (k.procs j).run_qed)) e v.runs));
      blocks = Tracks-same (set-kept k.procs i p (λ q. q.blocked_qed) refl) v.blocks;
    }

pub dequeue_run-IsKern : {k : Kern} → IsKern k → Taken (dequeue_run k)
unfolding dequeue_run
dequeue_run-IsKern {k} v = dequeue_from-IsKern k.run_procs refl v
