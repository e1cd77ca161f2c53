-- ===== src/Pool.antt =====
-- vk_pool.c: a pool of heaps of one size, with a list of the free ones. An entry is named by its
-- index, as the code's pointers into the array of entries are. `*_func` are the callbacks of the
-- pool as whether the call for an entry succeeds; a NULL callback is one that always does.
pub mod Entries
use mnvkd.Base.{
  ℕ, zero, suc, ◌+◌, ◌*◌, ℤ, pos, negsuc, is_minus_one, Bool, true, false, not, ◌&&◌, if◌then◌else◌,
  ltb, ◌==◌, Option, some, none, List, [], ◌∷◌, Checked, ok, fail, ◌>>=◌, add_size, mul_size,
  enomem, enoent, erange,
}
use mnvkd.WrapGuard.{safe_alignedlen, safe_mult}
use mnvkd.Heap.{Heap, prot_none, heap_map, heap_buf, heap_unmap, to_int}

pub record Pool : Type 0 where
  pub pool_heap : Heap
  pub free_entries : List ℕ
  pub object_size : ℕ
  pub object_count : ℕ
  pub buf : Option ℕ
  pub buf_len : ℕ
  pub heaps : ℕ → Heap

unfoldable pub get_entry : Pool → ℕ → Option ℕ
get_entry p i = if ltb i p.object_count then some i else none

unfoldable pub next_entry : Pool → Option ℕ → Option ℕ
next_entry p none = get_entry p 0
next_entry p (some i) = get_entry p (add_size i 1)

abbrev pub alloc_from : Pool → List ℕ → Checked (ℕ × Pool)
alloc_from p [] = fail enomem
alloc_from p (i ∷ rest) = ok (i, record p { free_entries = rest })

unfoldable pub alloc_entry : Pool → Checked (ℕ × Pool)
alloc_entry p = alloc_from p p.free_entries

-- The pool, and whether the entry was freed; a NULL entry is none.
unfoldable pub free_entry : (ℕ → Bool) → Pool → Option ℕ → Pool × Bool
free_entry free_func p none = (p, false)
free_entry free_func p (some i) = (record p { free_entries = i ∷ p.free_entries }, free_func i)

-- The sizes of the array of entries, whose element is `entry_size` bytes long, and of the objects.
unfoldable pub needed_buffer_size : ℕ → ℕ → ℕ → ℕ → Checked (ℕ × ℕ)
needed_buffer_size pagesize entry_size object_size object_count =
    safe_alignedlen pagesize object_count entry_size >>= λ entry_buffer_size.
    safe_alignedlen pagesize 1 object_size >>= λ alignedlen.
    safe_mult alignedlen object_count >>= λ object_buffer_size.
    ok (entry_buffer_size, object_buffer_size)

-- What the calls that an initialisation makes return for each entry.
pub record Calls : Type 0 where
  pub mmap : ℕ → Option ℕ
  pub init_func : ℕ → Bool
  pub free_func : ℕ → Bool

abbrev pub entry_heap : Calls → Pool → Option ℕ → ℕ → ℕ → Bool → ℕ → Heap × ℤ
entry_heap calls p (some buf) offset alignedlen entered i =
    heap_buf (p.heaps i) (add_size (add_size buf offset) (mul_size alignedlen i)) alignedlen
      prot_none entered
entry_heap calls p none offset alignedlen entered i =
    heap_map (p.heaps i) (calls.mmap i) 0 alignedlen prot_none entered

abbrev pub put_heap : Pool → ℕ → Heap → Pool
put_heap p i hd = record p { heaps = λ j. if j == i then hd else p.heaps j }

-- One round of the loop of vk_pool_init, and whether it goes on.
unfoldable pub init_entry : Calls → ℕ → ℕ → Bool → Pool → ℕ → Pool × Bool
init_entry calls offset alignedlen entered p i =
    let (hd, rc) = entry_heap calls p p.buf offset alignedlen entered i in
    let p1 = put_heap p i hd in
    if is_minus_one rc
    then (p1, false)
    else (let (p2, freed) = free_entry calls.free_func p1 (some i) in
        if not freed then (p2, false) else (p2, calls.init_func i))

-- The loop runs from the last entry to the first.
unfoldable pub init_entries : Calls → ℕ → ℕ → Bool → Pool → ℕ → Pool × Bool
init_entries calls offset alignedlen entered p zero = (p, true)
init_entries calls offset alignedlen entered p (suc i) =
    let (p1, going) = init_entry calls offset alignedlen entered p i in
    let rest = init_entries calls offset alignedlen entered p1 i in
    if going then rest else (p1, false)

-- The rounds of the loop, whose counter is an `int`.
abbrev pub rounds : ℤ → ℕ
rounds (pos n) = n
rounds (negsuc _) = 0

abbrev pub buffer_fits : Option ℕ → ℕ → ℕ → Bool
buffer_fits none buf_len needed = true
buffer_fits (some _) buf_len needed = buf_len == needed

-- The heap of the array of entries.
abbrev pub array_heap : Heap → Option ℕ → Option ℕ → ℕ → Heap × ℤ
array_heap hd (some buf) mmap len = heap_buf hd buf len prot_none true
array_heap hd none mmap len = heap_map hd mmap 0 len prot_none true

abbrev pub init_sized :
    Calls → Option ℕ → Pool → ℕ → ℕ → Option ℕ → ℕ → Bool → ℕ × ℕ → ℕ → Pool × Bool
init_sized calls pool_mmap p object_size object_count buf buf_len entered (entries, objects)
      alignedlen =
    let (hd, rc) = array_heap p.pool_heap buf pool_mmap entries in
    let p1 = record p {
      object_size = object_size;
      object_count = object_count;
      buf = buf;
      buf_len = buf_len;
      free_entries = [];
      pool_heap = hd;
    } in
    if not (buffer_fits buf buf_len (add_size entries objects))
    then (p, false)
    else (if is_minus_one rc
        then (p1, false)
        else init_entries calls entries alignedlen entered p1 (rounds (to_int object_count)))

abbrev pub init_checked :
    Calls
    → Option ℕ
    → Pool
    → ℕ
    → ℕ
    → Option ℕ
    → ℕ
    → Bool
    → Checked ℕ
    → Checked (ℕ × ℕ)
    → Pool × Bool
init_checked calls pool_mmap p object_size object_count buf buf_len entered (ok alignedlen)
      (ok sizes) =
    init_sized calls pool_mmap p object_size object_count buf buf_len entered sizes alignedlen
init_checked calls pool_mmap p object_size object_count buf buf_len entered (ok alignedlen)
      (fail e) =
    (p, false)
init_checked calls pool_mmap p object_size object_count buf buf_len entered (fail e) sizes =
    (p, false)

-- `pool_mmap` is the result of mapping the array of entries.
unfoldable pub init : ℕ → ℕ → Calls → Option ℕ → Pool → ℕ → ℕ → Option ℕ → ℕ → Bool → Pool × Bool
init pagesize entry_size calls pool_mmap p object_size object_count buf buf_len entered =
    init_checked calls pool_mmap p object_size object_count buf buf_len entered
      (safe_alignedlen pagesize 1 object_size)
      (needed_buffer_size pagesize entry_size object_size object_count)

-- The loop of vk_pool_deinit over `n` entries from `i` on. The result of the callback is not looked
-- at.
unfoldable pub deinit_entries : (ℕ → Bool) → Pool → ℕ → ℕ → Bool
deinit_entries munmap p i zero = true
deinit_entries munmap p i (suc n) =
    let rest = deinit_entries munmap p (suc i) n in
    if heap_unmap (p.heaps i) (munmap i) then rest else false

unfoldable pub deinit : (ℕ → Bool) → Bool → Pool → Bool
deinit munmap pool_munmap p =
    if deinit_entries munmap p 0 p.object_count then heap_unmap p.pool_heap pool_munmap else false
