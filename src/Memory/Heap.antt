-- ===== src/Memory/Heap.antt =====
-- The kernel heap, src/memory/kheap.c and kheap.h. The blocks are the list that starts at `head`, in
-- order: `next` and `prev` of a block are its neighbours there. A block's header of 20 bytes lies
-- before `addr`, and a pointer to a block is the header's address.
pub mod Blocks
pub mod Alloc
pub mod Release
pub mod Merge
pub mod Growth
pub mod Pages
mod Tests
use frog_kernel.Base.{
  ℕ, zero, suc, ◌+◌, ◌-◌, ◌*◌, ◌/◌, ◌%◌, ◌^◌, Bool, true, false, not, ◌&&◌, ◌||◌, Option, none,
  some, ltb, leb, ◌==◌, if◌then◌else◌, List, [], ◌∷◌, ◌++◌,
}
use frog_kernel.Base.Store.{Outcome, ok, panic, ◌>>=◌}
use frog_kernel.Memory.Pmm.{Pmm, alloc_frame, page_size}
use frog_kernel.Memory.Paging.{Space, Frames, map_page}

-- `k_heap_block_t`
pub record Block : Type 0 where
  pub addr : ℕ
  pub size : ℕ
  pub free : Bool

-- `sizeof(k_heap_block_t)`
abbrev pub header_size : ℕ
header_size = 20

abbrev pub header : Block → ℕ
header b = b.addr - header_size

pub record Heap : Type 0 where
  pub blocks : List Block
  pub free_head : ℕ
  pub kheap_end : ℕ
  pub kheap_size : ℕ
  pub space : Space

-- `while (free_head != NULL && !free_head->free) free_head = free_head->next;`
unfoldable pub next_free : List Block → ℕ
next_free [] = 0
next_free (b ∷ bs) = let rest = next_free bs in if b.free then header b else rest

abbrev pub used_block : (addr size : ℕ) → Block
used_block a n = record { addr = a; size = n; free = false }

abbrev pub free_block : (addr size : ℕ) → Block
free_block a n = record { addr = a; size = n; free = true }

-- What follows the block that is given out: the rest of it, if a header and a byte fit, and the
-- blocks behind.
unfoldable pub behind : Block → (size : ℕ) → List Block → List Block
behind b size bs =
    if leb ((size + header_size + 1) % 2 ^ 32) b.size
    then free_block ((b.addr + size + header_size) % 2 ^ 32)
        ((b.size + 2 ^ 32 + 2 ^ 32 - size - header_size) % 2 ^ 32)
      ∷ bs
    else bs

-- A block that is given out: its address, the blocks, and `free_head`.
pub record Fit : Type 0 where
  pub addr : ℕ
  pub blocks : List Block
  pub free_head : ℕ

abbrev pub cons_fit : Block → Fit → Fit
cons_fit b f = record { addr = f.addr; blocks = b ∷ f.blocks; free_head = f.free_head }

unfoldable pub carve : (free_head : ℕ) → Block → (size : ℕ) → List Block → Fit
unfolding behind next_free
carve free_head b size bs = record {
  addr = b.addr;
  blocks = used_block b.addr size ∷ behind b size bs;
  free_head = if header b == free_head then next_free (behind b size bs) else free_head;
}

-- The loop of `kmalloc`: `started` from the block at `free_head` on.
unfoldable pub find_fit : (free_head size : ℕ) → (started : Bool) → List Block → Option Fit
unfolding carve
find_fit fh size started [] = none
find_fit fh size started (b ∷ bs) =
    let later = find_fit fh size (started || header b == fh) bs in
    if (started || header b == fh) && (b.free && leb size b.size)
    then some (carve fh b size bs)
    else elim later [ none ↦ none | some f ↦ some (cons_fit b f) ]

abbrev pub page_block : Heap → Block
page_block h = free_block (h.kheap_end + header_size) (page_size - header_size)

-- The heap with a page behind the last block.
unfoldable pub add_page : Heap → Space → Heap
add_page h space = record {
  blocks = h.blocks ++ page_block h ∷ [];
  free_head = if h.free_head == 0 then header (page_block h) else h.free_head;
  kheap_end = (h.kheap_end + page_size) % 2 ^ 32;
  kheap_size = (h.kheap_size + page_size) % 2 ^ 32;
  space = space;
}

unfoldable pub map_frame : (dir : ℕ) → Heap → ℕ × Pmm → Outcome Heap
unfolding add_page
map_frame dir h (frame_phys, pmm') =
    map_page (record { frames = h.space.frames; pmm = pmm' }) dir frame_phys h.kheap_end 0x3
    >>= λ space. ok (add_page h space)

-- `dir` is the frame of the directory in `cr3`.
unfoldable pub grow : (dir : ℕ) → Heap → Outcome Heap
unfolding map_frame
grow dir h = alloc_frame h.space.pmm >>= map_frame dir h

-- The two ends of the loop of `kmalloc`: a block was found, or a page is added and the call is made
-- again.
unfoldable pub serve :
    Heap → Option Fit → (otherwise : Option (Outcome (ℕ × Heap))) → Option (Outcome (ℕ × Heap))
serve h (some f) otherwise =
    some (ok (f.addr, record h { blocks = f.blocks; free_head = f.free_head }))
serve h none otherwise = otherwise

unfoldable pub retry :
    (again : Heap → Option (Outcome (ℕ × Heap))) → Outcome Heap → Option (Outcome (ℕ × Heap))
retry again panic = some panic
retry again (ok h) = again h

-- `none` if the fuel is used up.
unfoldable pub kmalloc : (fuel dir : ℕ) → Heap → (size : ℕ) → Option (Outcome (ℕ × Heap))
unfolding find_fit grow serve retry
kmalloc zero dir h size = none
kmalloc (suc fuel) dir h size =
    serve h (find_fit h.free_head size false h.blocks)
      (retry (λ h'. kmalloc fuel dir h' size) (grow dir h))

-- A block taken over by the one before it.
abbrev pub absorb : Block → Block → Block
absorb b c = record {
  addr = b.addr;
  size = (b.size + header_size + c.size) % 2 ^ 32;
  free = b.free;
}

unfoldable pub join_next : Block → List Block → List Block
join_next b [] = b ∷ []
join_next b (c ∷ bs) = if c.free then absorb b c ∷ bs else b ∷ c ∷ bs

-- The block before the freed one takes it over, if it is free. The header of the block that results
-- is the second component.
unfoldable pub join_prev : Block → List Block → List Block × ℕ
join_prev p [] = (p ∷ [], header p)
join_prev p (b ∷ bs) = if p.free then (absorb p b ∷ bs, header p) else (p ∷ b ∷ bs, header b)

abbrev pub mark_free : Block → Block
mark_free b = free_block b.addr b.size

-- The block at an address is found through its header, so by its address, and freed, if it is not
-- free.
unfoldable pub free_at : (addr : ℕ) → Block → List Block → Option (List Block × ℕ)
unfolding join_next join_prev
free_at addr p [] = none
free_at addr p (b ∷ bs) =
    let later = free_at addr b bs in
    if b.addr == addr
    then if b.free then none else some (join_prev p (join_next (mark_free b) bs))
    else elim later [ none ↦ none | some r ↦ some (p ∷ r.0, r.1) ]

unfoldable pub free_blocks : (addr : ℕ) → List Block → Option (List Block × ℕ)
unfolding free_at join_next
free_blocks addr [] = none
free_blocks addr (b ∷ bs) =
    if b.addr == addr
    then if b.free then none else some (join_next (mark_free b) bs, header b)
    else free_at addr b bs

-- The end of `kfree`, with the block that results.
unfoldable pub released : Heap → Option (List Block × ℕ) → Heap
released h none = h
released h (some r) = record h {
  blocks = r.0;
  free_head = if h.free_head == 0 || ltb r.1 h.free_head then r.1 else h.free_head;
}

-- A block has the address.
unfoldable pub has_block : (addr : ℕ) → List Block → Bool
has_block addr [] = false
has_block addr (b ∷ bs) = let rest = has_block addr bs in b.addr == addr || rest

-- `none`: no block has the address. The code then takes whatever lies before it for a header, reads
-- it, and may write to it and to what its links name.
unfoldable pub kfree : Heap → (addr : ℕ) → Option Heap
unfolding free_blocks released has_block
kfree h addr =
    if addr == 0
    then some h
    else if has_block addr h.blocks
    then some (released h (free_blocks addr h.blocks))
    else none
