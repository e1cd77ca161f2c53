-- ===== src/Heap.antt =====
-- vk_heap.c: a mapping of memory with the protection to set while code inside it runs and the one
-- to set outside, and the stack over it. The results of mmap and mprotect are arguments.
use mnvkd.Base.{
  ℕ, ◌-◌, ◌%◌, ◌^◌, ℤ, pos, negsuc, minus_one, Bool, true, false, not, ◌&&◌, if◌then◌else◌, ltb,
  leb, Option, some, none, add_size, ◌≡◌, refl,
}
use mnvkd.Stack.{Stack, stack_init}

-- The bits of `prot`.
pub record Prot : Type 0 where
  pub prot_read : Bool
  pub prot_write : Bool
  pub prot_exec : Bool

abbrev pub prot_none : Prot
prot_none = record { prot_read = false; prot_write = false; prot_exec = false }

abbrev pub same_flag : Bool → Bool → Bool
same_flag true b = b
same_flag false b = not b

abbrev pub same_prot : Prot → Prot → Bool
same_prot a b =
    same_flag a.prot_read b.prot_read
    && (same_flag a.prot_write b.prot_write && same_flag a.prot_exec b.prot_exec)

pub record Mapping : Type 0 where
  pub retval : ℕ
  pub addr : ℕ
  pub len : ℕ
  pub prot : Prot

pub record Heap : Type 0 where
  pub mapping : Mapping
  pub owned : Bool
  pub prot_inside : Prot
  pub prot_outside : Prot
  pub stack : Stack

-- the conversion `(int)n` of a `size_t`
abbrev pub to_int : ℕ → ℤ
to_int n = let low = n % 2 ^ 32 in if ltb low (2 ^ 31) then pos low else negsuc (2 ^ 32 - low - 1)

-- `prot | PROT_READ | PROT_WRITE`
abbrev pub inside : Prot → Prot
inside prot = record prot { prot_read = true; prot_write = true }

-- The fields that vk_heap_map and vk_heap_buf set first.
abbrev pub prepare : Heap → Bool → ℕ → ℕ → Prot → Bool → Heap
prepare hd owned addr len prot entered = record hd {
  owned = owned;
  prot_inside = inside prot;
  prot_outside = prot;
  mapping = record (hd.mapping) {
    addr = addr;
    len = len;
    prot = if entered then inside prot else prot;
  };
}

abbrev pub finish_map : Heap → Option ℕ → ℕ → Heap × ℤ
finish_map hd none len = (hd, minus_one)
finish_map hd (some retval) len = (
  record hd { mapping = record (hd.mapping) { retval = retval }; stack = stack_init retval len },
  to_int len,
)

-- `mmap` is the mapping's address, or none for MAP_FAILED.
unfoldable pub heap_map : Heap → Option ℕ → ℕ → ℕ → Prot → Bool → Heap × ℤ
heap_map hd mmap addr len prot entered = finish_map (prepare hd true addr len prot entered) mmap len

unfoldable pub heap_buf : Heap → ℕ → ℕ → Prot → Bool → Heap × ℤ
heap_buf hd addr len prot entered =
    finish_map (prepare hd false addr len prot entered) (some addr) len

-- Whether the unmapping succeeds; `munmap` is called for an owned mapping alone.
unfoldable pub heap_unmap : Heap → Bool → Bool
heap_unmap hd munmap = if hd.owned then munmap else true

unfoldable pub heap_entered : Heap → Bool
heap_entered hd = same_prot hd.mapping.prot hd.prot_inside

-- The heap, whether `mprotect` is called, and the success of the call.
unfoldable pub heap_enter : Heap → Bool → Heap × Bool × Bool
heap_enter hd mprotect =
    if not (same_prot hd.mapping.prot hd.prot_inside)
    then (record hd { mapping = record (hd.mapping) { prot = hd.prot_inside } }, true, mprotect)
    else (hd, false, true)

unfoldable pub heap_exit : Heap → Bool → Heap × Bool × Bool
heap_exit hd mprotect =
    if not (same_prot hd.mapping.prot hd.prot_outside)
    then (record hd { mapping = record (hd.mapping) { prot = hd.prot_outside } }, true, mprotect)
    else (hd, false, true)

unfoldable pub addr_in_heap : Heap → ℕ → Bool
addr_in_heap hd addr =
    leb hd.mapping.retval addr && ltb addr (add_size hd.mapping.retval hd.mapping.len)

same_flag_self : (b : Bool) → same_flag b b ≡ true
same_flag_self true = refl
same_flag_self false = refl

same_prot_self : (p : Prot) → same_prot p p ≡ true
same_prot_self p =
    rw (same_flag_self p.prot_read, same_flag_self p.prot_write, same_flag_self p.prot_exec) refl

-- A heap that is not entered: whatever mprotect says, the heap counts as entered after an attempt
-- to enter it, and a second attempt makes no call and succeeds.
enter_again :
    (hd : Heap) (mprotect again : Bool)
    → heap_entered hd ≡ false
    → let (hd1, called, result) = heap_enter hd mprotect in
      (called ≡ true)
      × (result ≡ mprotect)
      × (heap_entered hd1 ≡ true)
      × (heap_enter hd1 again ≡ (hd1, false, true))
unfolding heap_entered heap_enter
enter_again hd mprotect again h =
    rw h (refl, refl, same_prot_self hd.prot_inside, rw (same_prot_self hd.prot_inside) refl)
