-- ===== src/Local/Tracking.antt =====
-- The invariant of a process: both queues are what the flags of the coroutines and sockets say, and
-- the process is to run, or blocked, exactly where its queue is not empty.
use mnvkd.Base.{
  ℕ, Bool, true, false, not, if◌then◌else◌, List, [], ◌∷◌, ◌≡◌, refl, ◌∙◌, ap, Bool-cases, inl, inr,
  Option, none, some, arith, subst, ◌&&◌,
}
use mnvkd.Queue.{
  remove, is_nil, Tracks, Tracks-same, Tracks-insert, Tracks-remove, Tracks-dequeue, set-flag,
  set-kept,
}
use mnvkd.Thread.{Thread, ready, is_ready}
use mnvkd.Socket.{Socket}
use mnvkd.Local.State.{Local, put_thread, put_socket, fault, through}
use mnvkd.Local.Queues.{
  enqueue_run, insert_run, enqueue_blocked, insert_blocked, settle_run, drop_run, dequeue_run_from,
  dequeue_run, drop_blocked, settle_blocked, is_thread, drop_each, drop_blocked_for,
}

pub record IsLocal (l : Local) : Type 0 where
  pub runs : Tracks l.run_q (λ i. (l.threads i).run_enq)
  pub blocks : Tracks l.blocked_q (λ s. (l.sockets s).blocked_enq)
  pub run_says : l.run ≡ not (is_nil l.run_q)
  pub blocked_says : l.blocked ≡ not (is_nil l.blocked_q)

pub if-IsLocal : {l k : Local} (b : Bool) → IsLocal l → IsLocal k → IsLocal (if b then l else k)
if-IsLocal true v w = v
if-IsLocal false v w = w

guard-IsLocal :
    {l k : Local} (b : Bool) → (b ≡ true → IsLocal l) → IsLocal k → IsLocal (if b then l else k)
guard-IsLocal true v w = v refl
guard-IsLocal false v w = w

-- Writes of an object that keep its flag.
pub put_thread-IsLocal :
    {l : Local} (i : ℕ) (t : Thread)
    → t.run_enq ≡ (l.threads i).run_enq
    → IsLocal l
    → IsLocal (put_thread l i t)
put_thread-IsLocal {l} i t h v = record {
  runs = Tracks-same (set-kept l.threads i t (λ k. k.run_enq) h) v.runs;
  blocks = v.blocks;
  run_says = v.run_says;
  blocked_says = v.blocked_says;
}

pub put_socket-IsLocal :
    {l : Local} (s : ℕ) (x : Socket)
    → x.blocked_enq ≡ (l.sockets s).blocked_enq
    → IsLocal l
    → IsLocal (put_socket l s x)
put_socket-IsLocal {l} s x h v = record {
  runs = v.runs;
  blocks = Tracks-same (set-kept l.sockets s x (λ k. k.blocked_enq) h) v.blocks;
  run_says = v.run_says;
  blocked_says = v.blocked_says;
}

pub fault-IsLocal : {l : Local} → IsLocal l → IsLocal (fault l)
fault-IsLocal v = record {
  runs = v.runs;
  blocks = v.blocks;
  run_says = v.run_says;
  blocked_says = v.blocked_says;
}

pub through-IsLocal :
    {l : Local} (o : Option ℕ) (f : ℕ → Local)
    → IsLocal l
    → ((i : ℕ) → IsLocal (f i))
    → IsLocal (through l o f)
through-IsLocal none f v w = fault-IsLocal v
through-IsLocal (some i) f v w = w i

pub ready_flag : (t : Thread) → (ready t).run_enq ≡ t.run_enq
unfolding ready
ready_flag t = ground arith

-- The flag of a process after an insertion, and after a removal.
inserted :
    (run : Bool) (xs : List ℕ) → run ≡ not (is_nil xs) → (if is_nil xs then true else run) ≡ true
inserted run [] h = refl
inserted run (x ∷ xs) h = h

guarded_false : (a b : Bool) → (a && not b) ≡ true → b ≡ false
guarded_false a b h = ground arith

remove_empty : (i : ℕ) (xs : List ℕ) → is_nil xs ≡ true → is_nil (remove i xs) ≡ true
remove_empty i [] h = refl
remove_empty i (x ∷ xs) h = ground arith

settled :
    (run : Bool) (xs ys : List ℕ)
    → run ≡ not (is_nil xs)
    → (is_nil xs ≡ true → is_nil ys ≡ true)
    → (if is_nil ys then false else run) ≡ not (is_nil ys)
settled run xs [] h e = refl
settled run [] (y ∷ ys) h e = h ∙ e refl
settled run (x ∷ xs) (y ∷ ys) h e = h

insert_run-IsLocal :
    {l : Local} (i : ℕ) → (l.threads i).run_enq ≡ false → IsLocal l → IsLocal (insert_run l i)
insert_run-IsLocal {l} i e v =
    let t = record (l.threads i) { run_enq = true } in
    record {
      runs =
          Tracks-same (set-flag l.threads i t (λ k. k.run_enq) true refl)
            (Tracks-insert i e v.runs);
      blocks = v.blocks;
      run_says = inserted l.run l.run_q v.run_says;
      blocked_says = v.blocked_says;
    }

insert_blocked-IsLocal :
    {l : Local} (s : ℕ)
    → (l.sockets s).blocked_enq ≡ false
    → IsLocal l
    → IsLocal (insert_blocked l s)
insert_blocked-IsLocal {l} s e v =
    let x = record (l.sockets s) { blocked_enq = true } in
    record {
      runs = v.runs;
      blocks =
          Tracks-same (set-flag l.sockets s x (λ k. k.blocked_enq) true refl)
            (Tracks-insert s e v.blocks);
      run_says = v.run_says;
      blocked_says = inserted l.blocked l.blocked_q v.blocked_says;
    }

pub enqueue_run-IsLocal : {l : Local} (i : ℕ) → IsLocal l → IsLocal (enqueue_run l i)
unfolding enqueue_run
enqueue_run-IsLocal {l} i v =
    let l1 = put_thread l i (ready (l.threads i)) in
    let v1 = put_thread-IsLocal i (ready (l.threads i)) (ready_flag (l.threads i)) v in
    guard-IsLocal (is_ready (l1.threads i) && not (l1.threads i).run_enq)
      (λ h.
        insert_run-IsLocal {l = l1} i
          (guarded_false (is_ready (l1.threads i)) (l1.threads i).run_enq h) v1)
      v1

pub enqueue_blocked-IsLocal : {l : Local} (s : ℕ) → IsLocal l → IsLocal (enqueue_blocked l s)
unfolding enqueue_blocked
enqueue_blocked-IsLocal {l} s v =
    guard-IsLocal (not (l.sockets s).blocked_enq)
      (λ h. insert_blocked-IsLocal s (guarded_false true (l.sockets s).blocked_enq h) v) v

-- A removal, with the process no longer to run where it leaves the queue empty.
settle_run-IsLocal :
    (l : Local)
    → Tracks l.run_q (λ i. (l.threads i).run_enq)
    → Tracks l.blocked_q (λ s. (l.sockets s).blocked_enq)
    → l.blocked ≡ not (is_nil l.blocked_q)
    → (xs : List ℕ) → l.run ≡ not (is_nil xs)
    → (is_nil xs ≡ true → is_nil l.run_q ≡ true)
    → IsLocal (settle_run l)
settle_run-IsLocal l r b c xs h e = record {
  runs = r;
  blocks = b;
  run_says = settled l.run xs l.run_q h e;
  blocked_says = c;
}

settle_blocked-IsLocal :
    (l : Local)
    → Tracks l.run_q (λ i. (l.threads i).run_enq)
    → Tracks l.blocked_q (λ s. (l.sockets s).blocked_enq)
    → l.run ≡ not (is_nil l.run_q)
    → (xs : List ℕ) → l.blocked ≡ not (is_nil xs)
    → (is_nil xs ≡ true → is_nil l.blocked_q ≡ true)
    → IsLocal (settle_blocked l)
settle_blocked-IsLocal l r b c xs h e = record {
  runs = r;
  blocks = b;
  run_says = c;
  blocked_says = settled l.blocked xs l.blocked_q h e;
}

pub drop_run-IsLocal : {l : Local} (i : ℕ) → IsLocal l → IsLocal (drop_run l i)
unfolding drop_run
drop_run-IsLocal {l} i v = elim (Bool-cases (l.threads i).run_enq) [
  | inl e ↦
      let t = record (l.threads i) { run_enq = false } in
      rw e (
        settle_run-IsLocal (record (put_thread l i t) { run_q = remove i l.run_q })
          (Tracks-same (set-flag l.threads i t (λ k. k.run_enq) false refl)
            (Tracks-remove i v.runs))
          v.blocks v.blocked_says l.run_q v.run_says (remove_empty i l.run_q))
  | inr e ↦ rw e (settle_run-IsLocal l v.runs v.blocks v.blocked_says l.run_q v.run_says (λ h. h))
]

pub drop_blocked-IsLocal : {l : Local} (s : ℕ) → IsLocal l → IsLocal (drop_blocked l s)
unfolding drop_blocked
drop_blocked-IsLocal {l} s v = elim (Bool-cases (l.sockets s).blocked_enq) [
  | inl e ↦
      let x = record (l.sockets s) { blocked_enq = false } in
      rw e (
        settle_blocked-IsLocal (record (put_socket l s x) { blocked_q = remove s l.blocked_q })
          v.runs
          (Tracks-same (set-flag l.sockets s x (λ k. k.blocked_enq) false refl)
            (Tracks-remove s v.blocks))
          v.run_says l.blocked_q v.blocked_says (remove_empty s l.blocked_q))
  | inr e ↦
      rw e (settle_blocked-IsLocal l v.runs v.blocks v.run_says l.blocked_q v.blocked_says (λ h. h))
]

drop_each-IsLocal : (i : ℕ) (xs : List ℕ) {l : Local} → IsLocal l → IsLocal (drop_each l i xs)
drop_each-IsLocal i [] v = v
drop_each-IsLocal i (s ∷ xs) {l} v =
    drop_each-IsLocal i xs
      (if-IsLocal (is_thread ((l.sockets s).block.blocked_vk) i) (drop_blocked-IsLocal s v) v)

pub drop_blocked_for-IsLocal : {l : Local} (i : ℕ) → IsLocal l → IsLocal (drop_blocked_for l i)
unfolding drop_blocked_for
drop_blocked_for-IsLocal {l} i v = drop_each-IsLocal i l.blocked_q v

-- What a dequeue gives satisfies `P`, where it gives something.
abbrev pub Dequeued : (ℕ → Local → Type 0) → Option (ℕ × Local) → Type 0
Dequeued P none = Unit {0}
Dequeued P (some (i, l)) = P i l

dequeue_run_from-IsLocal :
    {l : Local} (xs : List ℕ)
    → l.run_q ≡ xs
    → IsLocal l
    → Dequeued (λ _ k. IsLocal k) (dequeue_run_from l xs)
dequeue_run_from-IsLocal [] e v = tt
dequeue_run_from-IsLocal {l} (i ∷ rest) e v =
    let t = record (l.threads i) { run_enq = false } in
    settle_run-IsLocal (record (put_thread l i t) { run_q = rest })
      (Tracks-same (set-flag l.threads i t (λ k. k.run_enq) false refl)
        (Tracks-dequeue (subst (λ ys. Tracks ys (λ j. (l.threads j).run_enq)) e v.runs)))
      v.blocks v.blocked_says (i ∷ rest) (v.run_says ∙ ap (λ ys. not (is_nil ys)) e)
      (λ h. ground arith)

pub dequeue_run-IsLocal : {l : Local} → IsLocal l → Dequeued (λ _ k. IsLocal k) (dequeue_run l)
unfolding dequeue_run
dequeue_run-IsLocal {l} v = dequeue_run_from-IsLocal l.run_q refl v
