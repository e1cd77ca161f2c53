-- ===== src/Request/Queues.antt =====
-- vk_io_queue.c and vk_io_batch_sync.c: the queue of a stream, and a batch over streams.
use mnvkd.Base.{
  ℕ, ℤ, Bool, true, false, if◌then◌else◌, ◌==◌, Option, some, none, List, [], ◌∷◌, ◌++◌,
}
use mnvkd.Queue.{remove}
use mnvkd.Vectoring.Syscalls.{CallResult}
use mnvkd.Request.{
  Kind, io_read, io_write, io_forward, io_flush, io_hup, State, pending, staged, submitted,
  completed, again, needs_poll, errored, canceled, Request, exec_rw,
}

unfoldable pub queue_push : List ℕ → ℕ → List ℕ
queue_push q op = q ++ (op ∷ [])

-- The request that is taken, and the queue that is left.
unfoldable pub queue_pop : List ℕ → Option ℕ × List ℕ
queue_pop [] = (none, [])
queue_pop (op ∷ q) = (some op, q)

unfoldable pub queue_first : List ℕ → Option ℕ
queue_first [] = none
queue_first (op ∷ q) = some op

-- `vk_io_queue_remove`, of a request that may be NULL
unfoldable pub queue_remove : List ℕ → Option ℕ → List ℕ
queue_remove q none = q
queue_remove q (some op) = remove op q

-- `want_events_for_kind`, as whether to read and whether to write
abbrev pub want_events : Kind → Bool × Bool
want_events io_read = (true, false)
want_events io_write = (false, true)
want_events io_forward = (false, false)
want_events io_flush = (false, false)
want_events io_hup = (false, false)

abbrev pub is_needs_poll : State → Bool
is_needs_poll pending = false
is_needs_poll staged = false
is_needs_poll submitted = false
is_needs_poll completed = false
is_needs_poll again = false
is_needs_poll needs_poll = true
is_needs_poll errored = false
is_needs_poll canceled = false

-- The requests and the queues, with what a batch has completed (beside the queue that each request
-- was taken from) and what it has to poll for.
pub record Batch : Type 0 where
  pub requests : ℕ → Request
  pub queues : ℕ → List ℕ
  pub done_ops : List (ℕ × ℕ)
  pub polls : List (ℤ × Bool × Bool)

abbrev pub poll_for : Request → List (ℤ × Bool × Bool)
poll_for op =
    if is_needs_poll op.state
    then (let (wants_read, wants_write) = want_events op.kind in
        (op.fd, wants_read, wants_write) ∷ [])
    else []

abbrev pub run_taken : (ℕ → CallResult) → Batch → ℕ → Option ℕ × List ℕ → Batch
run_taken calls b q (none, rest) = b
run_taken calls b q (some i, rest) =
    let (op, _) = exec_rw (b.requests i) (calls i) in
    record b {
      requests = λ j. if j == i then op else b.requests j;
      queues = λ j. if j == q then rest else b.queues j;
      done_ops = b.done_ops ++ ((q, i) ∷ []);
      polls = b.polls ++ poll_for op;
    }

-- One round of `vk_io_batch_sync_run`; a stream may have no queue.
abbrev pub run_stream : (ℕ → CallResult) → Batch → Option ℕ → Batch
run_stream calls b none = b
run_stream calls b (some q) = run_taken calls b q (queue_pop (b.queues q))

-- The loop over the streams; `calls` gives what the call made for each request returns.
unfoldable pub run_streams : (ℕ → CallResult) → Batch → List (Option ℕ) → Batch
run_streams calls b [] = b
run_streams calls b (s ∷ rest) = run_streams calls (run_stream calls b s) rest

unfoldable pub batch_sync_run :
    (ℕ → CallResult) → (ℕ → Request) → (ℕ → List ℕ) → List (Option ℕ) → Batch
batch_sync_run calls requests queues streams =
    run_streams calls (record { requests = requests; queues = queues; done_ops = []; polls = [] })
      streams
