-- ===== src/Memory/Pmm/Init.antt =====
-- `pmm_init`, `pmm_mark_used` and `pmm_mark_free` of src/memory/pmm.c.
use frog_kernel.Base.{ℕ, ◌+◌, ◌-◌, ◌*◌, ◌/◌, ◌%◌, ◌^◌, List, [], ◌∷◌, ltb, if◌then◌else◌}
use frog_kernel.Base.Store.{Array}
use frog_kernel.Memory.Mmap.{Region, Mmap}
use frog_kernel.Memory.Pmm.{Pmm, page_size, mark_used, mark_free}

-- The symbols of the linker script, the framebuffer tag, and the address of `fb` (28 bytes).
pub record Boot : Type 0 where
  pub kend : ℕ
  pub kpstart : ℕ
  pub kpend : ℕ
  pub framebuffer_addr : ℕ
  pub framebuffer_pitch : ℕ
  pub framebuffer_height : ℕ
  pub fb : ℕ

abbrev pub kernel_offset : ℕ
kernel_offset = 0xc0000000

-- `x & ~0xfff` and `(x + 0xfff) & ~0xfff` on uint32_t.
abbrev pub page_down : ℕ → ℕ
page_down x = x / 0x1000 * 0x1000

abbrev pub page_up : ℕ → ℕ
page_up x = page_down ((x + 0xfff) % 2 ^ 32)

abbrev pub sub32 : ℕ → ℕ → ℕ
sub32 a b = (a + 2 ^ 32 - b) % 2 ^ 32

-- `memset(pmm_bitmap, 0xff, bitmap_size)`
unfoldable pub fill_ff : Array ℕ → ℕ → Array ℕ
fill_ff m n i = if ltb i n then 0xff else m i

unfoldable pub free_regions : Array ℕ → List Region → Array ℕ
free_regions m [] = m
free_regions m (r ∷ rs) = free_regions (mark_free m r.base r.length) rs

-- A block of memory that is marked as used.
pub record Block : Type 0 where
  pub addr : ℕ
  pub len : ℕ

abbrev block : ℕ → ℕ → Block
block a n = record { addr = a; len = n }

-- The five calls of `pmm_mark_used`, in order.
unfoldable pub reserved_blocks : Boot → (bitmap_addr bitmap_size : ℕ) → List Block
reserved_blocks b at size =
    let phys = sub32 at kernel_offset in
    block 0x00000000 0x100000
    ∷ block (page_down b.kpstart) (sub32 (page_up b.kpend) (page_down b.kpstart))
    ∷ block (page_down phys) (sub32 (page_up ((phys + size) % 2 ^ 32)) (page_down phys))
    ∷ block (b.framebuffer_addr % 2 ^ 32) (b.framebuffer_pitch * b.framebuffer_height % 2 ^ 32)
    ∷ block (sub32 b.fb kernel_offset) 28
    ∷ []

unfoldable pub mark_blocks : Array ℕ → List Block → Array ℕ
mark_blocks m [] = m
mark_blocks m (b ∷ bs) = mark_blocks (mark_used m b.addr b.len) bs

-- `memory` is what lies at `bitmap_addr` before the call.
unfoldable pub pmm_init : Mmap → Boot → (memory : Array ℕ) → Pmm
unfolding fill_ff free_regions mark_blocks reserved_blocks
pmm_init mm b memory =
    let total_pages = mm.total_memory / page_size in
    let bitmap_addr = page_up b.kend in
    let bitmap_size = (total_pages + 7) / 8 in
    record {
      bitmap =
          mark_blocks (free_regions (fill_ff memory bitmap_size) mm.usable_regions)
            (reserved_blocks b bitmap_addr bitmap_size);
      total_pages = total_pages;
      bitmap_addr = bitmap_addr;
      bitmap_size = bitmap_size;
    }
