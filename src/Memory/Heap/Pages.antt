-- ===== src/Memory/Heap/Pages.antt =====
-- Mapping fresh pages, in `kheap_init` and `kalloc_pages` of src/memory/kheap.c.
use frog_kernel.Base.{ℕ, zero, suc, ◌+◌, ◌-◌, ◌*◌, ◌/◌, ◌%◌, ◌^◌, ◌==◌, [], ◌∷◌, if◌then◌else◌}
use frog_kernel.Base.Store.{Outcome, ok, panic, ◌>>=◌}
use frog_kernel.Memory.Pmm.{Pmm, alloc_frame, page_size}
use frog_kernel.Memory.Paging.{Space, Frames, map_page}
use frog_kernel.Memory.Heap.{Heap, free_block, header_size}

-- The loops of `kheap_init` and `kalloc_pages` over the rounds left: a frame is mapped at each page
-- from `virt` on.
unfoldable pub map_new : (dir : ℕ) → (flags virt : ℕ) → ℕ × Pmm → Frames → Outcome Space
map_new dir flags virt (phys, pmm') frames =
    if phys == 0
    then panic
    else map_page (record { frames = frames; pmm = pmm' }) dir phys virt flags

unfoldable pub map_pages : (dir rounds virt : ℕ) → Space → Outcome Space
unfolding map_new
map_pages dir zero virt s = ok s
map_pages dir (suc n) virt s = alloc_frame s.pmm >>= λ r.
    (map_new dir 0x3 virt r s.frames >>= map_pages dir n ((virt + page_size) % 2 ^ 32))

abbrev pub kheap_virt_start : ℕ
kheap_virt_start = 0xd0000000

abbrev pub kheap_initial_size : ℕ
kheap_initial_size = 4 * 1024 * 1024

unfoldable pub kheap_init : (dir : ℕ) → Space → Outcome Heap
unfolding map_pages
kheap_init dir s = map_pages dir (kheap_initial_size / page_size) kheap_virt_start s >>= λ space.
    ok (record {
      blocks = free_block (kheap_virt_start + header_size) (kheap_initial_size - header_size) ∷ [];
      free_head = kheap_virt_start;
      kheap_end = kheap_virt_start + kheap_initial_size;
      kheap_size = kheap_initial_size;
      space = space;
    })

-- `base` is `large_alloc_base`; the result is the address, the new base and the address space.
unfoldable pub kalloc_pages : (dir base num_pages : ℕ) → Space → Outcome (ℕ × ℕ × Space)
unfolding map_pages
kalloc_pages dir base num_pages s = map_pages dir num_pages base s >>= λ space.
    ok (base, (base + num_pages * page_size) % 2 ^ 32, space)
