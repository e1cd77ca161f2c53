-- ===== src/Local/Registration.antt =====
-- What queueing a coroutine and blocking a socket registers.
use mnvkd.Base.{
  if_true, ℕ, Bool, true, false, not, ◌&&◌, ◌==◌, Option, some, none, List, ◌∷◌, ◌≡◌, sym, ◌∙◌, ap,
  arith, subst,
}
use mnvkd.Thread.{Thread, ready, is_ready, is_end}
use mnvkd.Local.State.{Local, put_thread}
use mnvkd.Local.Tracking.{ready_flag}
use mnvkd.Local.Queues.{enqueue_run, insert_run, dequeue_run, dequeue_run_from}

-- The coroutine that a dequeue gives, and the queue that it leaves.
abbrev pub dequeued : Option (ℕ × Local) → Option (ℕ × List ℕ)
dequeued none = none
dequeued (some (i, l)) = some (i, l.run_q)

dequeue_first :
    (l : Local) (i : ℕ) (xs : List ℕ) → l.run_q ≡ i ∷ xs → dequeued (dequeue_run l) ≡ some (i, xs)
unfolding dequeue_run
dequeue_first l i xs e = ap (λ ys. dequeued (dequeue_run_from l ys)) e

pub self_eq : (i : ℕ) → (i == i) ≡ true
self_eq i = ground arith

ready_again : (t : Thread) → is_end t.status ≡ false → is_ready (ready t) ≡ true
unfolding ready is_ready
ready_again t h = ground arith

both : (a b : Bool) → a ≡ true → b ≡ false → (a && not b) ≡ true
both a b h e = ground arith

pub enqueue_first :
    (l : Local) (i : ℕ)
    → (l.threads i).run_enq ≡ false
    → is_end (l.threads i).status ≡ false
    → (enqueue_run l i).run_q ≡ i ∷ l.run_q
unfolding enqueue_run
enqueue_first l i h e =
    let l1 = put_thread l i (ready (l.threads i)) in
    let same : l1.threads i ≡ ready (l.threads i) =
      if_true (i == i) (ready (l.threads i)) (l.threads i) (self_eq i) in
    ap (λ k. k.run_q)
      (if_true (is_ready (l1.threads i) && not (l1.threads i).run_enq) (insert_run l1 i) l1 (
        subst (λ t. (is_ready t && not t.run_enq) ≡ true) (sym same)
          (both (is_ready (ready (l.threads i))) (ready (l.threads i)).run_enq
            (ready_again (l.threads i) e) (ready_flag (l.threads i) ∙ h))))

-- The coroutine queued last runs first: a coroutine that has not ended and is on no queue is, once
-- it is queued, the one that a dequeue gives, whatever waits on the queue, which is left as it was.
pub dequeue-enqueue_run :
    (l : Local) (i : ℕ)
    → (l.threads i).run_enq ≡ false
    → is_end (l.threads i).status ≡ false
    → dequeued (dequeue_run (enqueue_run l i)) ≡ some (i, l.run_q)
dequeue-enqueue_run l i h e = dequeue_first (enqueue_run l i) i l.run_q (enqueue_first l i h e)
