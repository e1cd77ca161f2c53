-- ===== src/Tests/Requests.antt =====
-- Two queues and three streams, of which two have the same queue, and a request for the two bytes
-- that a ring holds before the end of its buffer.
use mnvkd.Base.{
  ℕ, ◌≡◌, refl, arith, pos, true, false, some, none, List, [], ◌∷◌, ◌++◌, if◌then◌else◌, ◌==◌, take,
  ok, fail, eagain, min,
}
use mnvkd.Vectoring.State.{at, literal}
use mnvkd.Vectoring.Syscalls.{CallResult, done}
use mnvkd.Vectoring.Contents.{contents}
use mnvkd.Request.{
  Request, io_write, io_flush, pending, from_tx_ring, from_vectors, exec_rw, apply_tx,
}
use mnvkd.Request.Queues.{queue_pop, run_streams, batch_sync_run}
use mnvkd.Request.Batch.{taken_from, batch_sync_run-queues}
use mnvkd.Request.Rings.{named, view, from_tx_ring_lem, apply_tx-named}
use mnvkd.Tests.Rings.{ring, ring-IsValid}

abbrev request : Request
request = record {
  fd = pos 5;
  proc = none;
  thread = none;
  kind = io_write;
  iov = record {
    first = record { iov_base = literal; iov_len = 0 };
    second = record { iov_base = literal; iov_len = 0 };
  };
  len = 0;
  flags = 0;
  state = pending;
  res = pos 0;
  err = 0;
}

-- Of the bytes of request `i`, the call writes `i`.
abbrev calls : ℕ → CallResult
calls i = done i

abbrev requests : ℕ → Request
requests i = record request { fd = pos i; len = 7 }

abbrev queues : ℕ → List ℕ
queues i = if i == 0 then 7 ∷ 2 ∷ 3 ∷ [] else 4 ∷ []

batch_polls :
    (batch_sync_run calls requests queues (some 0 ∷ none ∷ some 1 ∷ some 0 ∷ [])).polls
    ≡ (pos 4, false, true) ∷ (pos 2, false, true) ∷ []
unfolding batch_sync_run run_streams queue_pop exec_rw
batch_polls = refl

batch_sync_run-queues_example :
    let b = batch_sync_run calls requests queues (some 0 ∷ none ∷ some 1 ∷ some 0 ∷ []) in
    (taken_from 0 b.done_ops ≡ 7 ∷ 2 ∷ []) × (b.queues 0 ≡ 3 ∷ [])
batch_sync_run-queues_example =
    batch_sync_run-queues calls requests queues (some 0 ∷ none ∷ some 1 ∷ some 0 ∷ []) 0

from_tx_ring_lem_example :
    view ring.mem (from_tx_ring request ring 2)
    ≡ (if ring.tx_len == 0 then fail eagain else ok (take 2 (contents ring), min 2 ring.tx_len))
from_tx_ring_lem_example = from_tx_ring_lem request ring-IsValid 2 (omega arith)

abbrev made : Request
made = record request {
  iov = record {
    first = record { iov_base = at 2; iov_len = 2 };
    second = record { iov_base = at 0; iov_len = 0 };
  };
  len = 2;
}

made_lem : from_tx_ring request ring 2 ≡ ok made
unfolding from_tx_ring from_vectors
made_lem = refl

apply_tx-named_example :
    take 1 (named ring.mem made.iov) ++ contents ((apply_tx 0 ring made (pos 1)).1) ≡ contents ring
apply_tx-named_example =
    apply_tx-named request ring-IsValid 2 (omega arith) made 1 0 made_lem (omega arith)

-- A request that is not made: it is listed with those that are completed.
batch_flush :
    let b = batch_sync_run calls (λ i. record request { kind = io_flush }) queues (some 1 ∷ []) in
    (b.done_ops ≡ (1, 4) ∷ []) × ((b.requests 4).state ≡ pending)
unfolding batch_sync_run run_streams queue_pop exec_rw
batch_flush = (refl, refl)
