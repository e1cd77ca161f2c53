-- ===== src/Request/Batch.antt =====
-- vk_io_batch_sync.c: what a batch takes of the queues.
use mnvkd.Base.{
  ℕ, ◌+◌, Bool, true, false, if◌then◌else◌, ◌==◌, ==_iff, Option, some, none, List, [], ◌∷◌, ◌++◌,
  take, drop, take-add, drop-drop, ◌≡◌, refl, sym, ap, ap₂, ◌∙◌, arith, Bool-cases, inl, inr, subst,
}
use mathlib.Core.List.{append-nil, append_assoc}
use mnvkd.Vectoring.Syscalls.{CallResult}
use mnvkd.Request.{Request}
use mnvkd.Request.Queues.{Batch, queue_pop, run_taken, run_stream, run_streams, batch_sync_run}

-- The requests that were taken from queue `q`, in order.
abbrev pub taken_from : ℕ → List (ℕ × ℕ) → List ℕ
taken_from q [] = []
taken_from q ((p, i) ∷ rest) =
    let others = taken_from q rest in if q == p then i ∷ others else others

-- The number of streams with queue `q`.
abbrev pub times : ℕ → List (Option ℕ) → ℕ
times q [] = 0
times q (none ∷ rest) = times q rest
times q (some p ∷ rest) = let others = times q rest in if q == p then 1 + others else others

taken_from-append :
    (q p i : ℕ) (xs : List (ℕ × ℕ))
    → taken_from q (xs ++ ((p, i) ∷ [])) ≡ taken_from q xs ++ (if q == p then i ∷ [] else [])
taken_from-append q p i [] = refl
taken_from-append q p i ((r, j) ∷ xs) = grow (q == r) (taken_from-append q p i xs)
  where
    grow :
        (b : Bool)
        → taken_from q (xs ++ ((p, i) ∷ [])) ≡ taken_from q xs ++ (if q == p then i ∷ [] else [])
        → (if b then j ∷ taken_from q (xs ++ ((p, i) ∷ [])) else taken_from q (xs ++ ((p, i) ∷ [])))
          ≡ (if b then j ∷ taken_from q xs else taken_from q xs) ++ (if q == p then i ∷ [] else [])
    grow true h = ap (λ zs. j ∷ zs) h
    grow false h = h

-- What is taken in order and what is left are the two parts of a queue.
abbrev Splits : ℕ → ℕ → Batch → Batch → Type 0
Splits q n b c =
    (taken_from q c.done_ops ≡ taken_from q b.done_ops ++ take n (b.queues q))
    × (c.queues q ≡ drop n (b.queues q))

run_taken-Splits :
    (calls : ℕ → CallResult) (b : Batch) (q p : ℕ) (xs : List ℕ)
    → b.queues p ≡ xs
    → Splits q (times q (some p ∷ [])) b (run_taken calls b p (queue_pop xs))
unfolding queue_pop
run_taken-Splits calls b q p [] h = elim (Bool-cases (q == p)) [
  | inl e ↦
      let same : b.queues q ≡ [] = subst (λ k. b.queues k ≡ []) (sym ((==_iff q p).0 e)) h in
      rw (e, same) (sym (append-nil _), refl)
  | inr e ↦ rw e (sym (append-nil _), refl)
]
run_taken-Splits calls b q p (i ∷ xs) h = elim (Bool-cases (q == p)) [
  | inl e ↦
      let same : b.queues q ≡ i ∷ xs =
        subst (λ k. b.queues k ≡ i ∷ xs) (sym ((==_iff q p).0 e)) h in
      (rw (taken_from-append q p i b.done_ops, e, same) refl, rw (e, same) refl)
  | inr e ↦ (rw (taken_from-append q p i b.done_ops, e) refl, rw e refl)
]

Splits-trans : (q m n : ℕ) (b c d : Batch) → Splits q m b c → Splits q n c d → Splits q (m + n) b d
Splits-trans q m n b c d (taken, left) (taken', left') = (
  taken'
      ∙ ap₂ ◌++◌ taken (ap (take n) left)
      ∙ append_assoc (taken_from q b.done_ops) _ _
      ∙ ap (λ zs. taken_from q b.done_ops ++ zs) (sym (take-add m n (b.queues q))),
  left' ∙ ap (drop n) left ∙ drop-drop m n (b.queues q),
)

run_streams-Splits :
    (calls : ℕ → CallResult) (b : Batch) (q : ℕ) (streams : List (Option ℕ))
    → Splits q (times q streams) b (run_streams calls b streams)
unfolding run_streams
run_streams-Splits calls b q [] = (sym (append-nil _), refl)
run_streams-Splits calls b q (none ∷ rest) = run_streams-Splits calls b q rest
run_streams-Splits calls b q (some p ∷ rest) =
    subst (λ k. Splits q k b (run_streams calls b (some p ∷ rest))) (count (q == p))
      (Splits-trans q (times q (some p ∷ [])) (times q rest) b (run_stream calls b (some p))
        (run_streams calls (run_stream calls b (some p)) rest)
        (run_taken-Splits calls b q p (b.queues p) refl)
        (run_streams-Splits calls (run_stream calls b (some p)) q rest))
  where
    count :
        (e : Bool)
        → (if e then 1 else 0) + times q rest ≡ (if e then 1 + times q rest else times q rest)
    count true = refl
    count false = omega arith

-- A batch takes from the front of each queue, in order, one request for each stream that has the
-- queue, or all of the queue if it is shorter, and leaves the others on it in their order.
pub batch_sync_run-queues :
    (calls : ℕ → CallResult) (requests : ℕ → Request) (queues : ℕ → List ℕ)
    (streams : List (Option ℕ)) (q : ℕ)
    → let b = batch_sync_run calls requests queues streams in
      (taken_from q b.done_ops ≡ take (times q streams) (queues q))
      × (b.queues q ≡ drop (times q streams) (queues q))
unfolding batch_sync_run
batch_sync_run-queues calls requests queues streams q =
    run_streams-Splits calls
      (record { requests = requests; queues = queues; done_ops = []; polls = [] }) q streams
