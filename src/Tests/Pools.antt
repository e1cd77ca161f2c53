-- ===== src/Tests/Pools.antt =====
-- A heap outside of which nothing may be read, and a pool of three heaps over a buffer.
use mnvkd.Base.{◌≡◌, refl, true, false, some, none, [], ◌++◌}
use mnvkd.Heap.{prot_none, inside, Heap, heap_entered}
use mnvkd.Pool.{Pool, Calls, init_entries}
use mnvkd.Pool.Entries.{range, Succeeds, init_entries_lem}

abbrev pub heap : Heap
heap = record {
  mapping = record { retval = 4096; addr = 0; len = 8192; prot = prot_none };
  owned = true;
  prot_inside = inside prot_none;
  prot_outside = prot_none;
  stack = record { addr_start = 4096; addr_stop = 12288; addr_cursor = 4096 };
}

heap_outside : heap_entered heap ≡ false
unfolding heap_entered
heap_outside = refl

abbrev pub pool : Pool
pool = record {
  pool_heap = heap;
  free_entries = [];
  object_size = 8192;
  object_count = 3;
  buf = some 65536;
  buf_len = 28672;
  heaps = λ i. heap;
}

abbrev calls : Calls
calls = record { mmap = λ i. none; init_func = λ i. true; free_func = λ i. true }

calls-Succeeds : Succeeds calls 8192
calls-Succeeds = record { inits = λ i. refl; frees = λ i. refl; length_fits = refl }

init_entries_lem_example :
    let (p1, going) = init_entries calls 4096 8192 true pool 3 in
    (going ≡ true) × (p1.free_entries ≡ range 0 3 ++ [])
init_entries_lem_example = init_entries_lem calls 4096 8192 true calls-Succeeds 3 pool 65536 refl
