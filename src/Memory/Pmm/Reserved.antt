-- ===== src/Memory/Pmm/Reserved.antt =====
-- The pages that `pmm_init` of src/memory/pmm.c keeps from being given out, by their numbers.
use frog_kernel.Base.{
  ℕ, ◌+◌, ◌-◌, ◌*◌, ◌/◌, ◌%◌, ◌^◌, ◌<◌, ◌≤◌, ◌≡◌, ◌∙◌, ap, Bool, not, ◌&&◌, ◌||◌, ltb, ◌==◌, arith,
}
use frog_kernel.Base.Store.{Array}
use frog_kernel.Memory.Mmap.{Mmap}
use frog_kernel.Memory.Pmm.Bits.{IsBytes, used, in_pages}
use frog_kernel.Memory.Pmm.Init.{
  Boot, page_up, page_down, sub32, kernel_offset, reserved_blocks, pmm_init,
}
use frog_kernel.Memory.Pmm.Boot.{in_block, in_blocks, in_regions, reserved, pmm_init-blocks}

-- Page `q` has a byte from `lo` up to `hi`.
abbrev pub meets : (lo hi q : ℕ) → Bool
meets lo hi q = ltb lo (q * 4096 + 4096) && ltb (q * 4096) hi

-- Page `q` has a byte of the first MiB, of the kernel, of the bitmap or of the framebuffer, or the
-- first byte of `fb`. The bitmap lies at the first page at or behind `kend`, a byte for eight pages.
abbrev pub is_reserved : Boot → (total_memory q : ℕ) → Bool
is_reserved b total q =
    let bitmap = (b.kend + 4095) / 4096 * 4096 - 0xc0000000 in
    meets 0 0x100000 q
    || (meets b.kpstart b.kpend q
        || (meets bitmap (bitmap + (total / 4096 + 7) / 8) q
            || (meets b.framebuffer_addr
                  (b.framebuffer_addr + b.framebuffer_pitch * b.framebuffer_height) q
                || q == (b.fb - 0xc0000000) / 4096)))

-- The addresses of a machine make sense: nothing reaches the last page below 2^32, the kernel lies in
-- its half, what is reserved is not empty, and the framebuffer begins with a page.
pub record IsMachine (b : Boot) (total_memory : ℕ) : Type 0 where
  pub kernel : b.kpstart < b.kpend
  pub kernel_end : b.kpend + 4096 < 2 ^ 32
  pub half : 0xc0000000 ≤ b.kend
  pub bitmap_end : b.kend + 4096 + total_memory / 32768 + 4096 < 2 ^ 32
  pub pages : 4096 ≤ total_memory
  pub framebuffer_page : b.framebuffer_addr % 4096 ≡ 0
  pub framebuffer_end :
      b.framebuffer_addr + b.framebuffer_pitch * b.framebuffer_height + 4096 < 2 ^ 32
  pub framebuffer_size : 1 ≤ b.framebuffer_pitch * b.framebuffer_height
  pub fb_half : 0xc0000000 ≤ b.fb
  pub fb_end : b.fb < 2 ^ 32

-- The pages of a block that is rounded out to whole pages.
in_block-rounded :
    (lo hi q : ℕ)
    → lo < hi
    → hi + 4096 < 2 ^ 32
    → in_block (page_down lo) (sub32 (page_up hi) (page_down lo)) q ≡ meets lo hi q
in_block-rounded lo hi q h k = rw (size, whole) (ground (arith, h))
  where
    size : sub32 (page_up hi) (page_down lo) ≡ ((hi + 4095) / 4096 - lo / 4096) * 4096
    size = omega (arith, h, k)

    whole :
        in_block (page_down lo) (((hi + 4095) / 4096 - lo / 4096) * 4096) q
        ≡ in_pages (lo / 4096) ((hi + 4095) / 4096 - lo / 4096) q
    whole = ground (arith, k)

in_block-aligned :
    (addr len q : ℕ)
    → addr % 4096 ≡ 0
    → 1 ≤ len
    → addr + len + 4096 < 2 ^ 32
    → in_block (addr % 2 ^ 32) (len % 2 ^ 32) q ≡ meets addr (addr + len) q
in_block-aligned addr len q a one k = ground (arith, a, one, k)

in_block-first :
    (fb q : ℕ)
    → 0xc0000000 ≤ fb
    → fb < 2 ^ 32
    → in_block (sub32 fb kernel_offset) 28 q ≡ (q == (fb - 0xc0000000) / 4096)
in_block-first fb q h k = ground (arith, h, k)

in_block-low : (q : ℕ) → in_block 0 0x100000 q ≡ meets 0 0x100000 q
in_block-low q = ground arith

module _ (mm : Mmap) (b : Boot) (memory : Array ℕ) where
  reserved-pages :
      (q : ℕ)
      → IsMachine b mm.total_memory
      → in_blocks (reserved mm b memory) q ≡ is_reserved b mm.total_memory q
  unfolding in_blocks reserved_blocks
  reserved-pages q v =
      rw
        (
          in_block-low q,
          in_block-rounded b.kpstart b.kpend q v.kernel v.kernel_end,
          in_block-aligned b.framebuffer_addr (b.framebuffer_pitch * b.framebuffer_height) q
              v.framebuffer_page v.framebuffer_size v.framebuffer_end,
          in_block-first b.fb q v.fb_half v.fb_end,
        )
        (ground arith)

  -- On a machine whose addresses make sense and a memory of bytes, after `pmm_init` page `q` is used
  -- exactly if it has a byte of the first MiB, of the kernel, of the bitmap or of the framebuffer, or
  -- the first byte of `fb`, or if no usable region has it while its bit was set at the start: by
  -- `memset` if the bitmap has a byte for it, by what lay in memory otherwise.
  pub used-pmm_init :
      (q : ℕ)
      → IsMachine b mm.total_memory
      → IsBytes memory
      → used (pmm_init mm b memory).bitmap q ≡ (
          is_reserved b mm.total_memory q
          || (not (in_regions mm.usable_regions q)
              && (ltb q ((mm.total_memory / 4096 + 7) / 8 * 8) || used memory q)))
  unfolding pmm_init
  used-pmm_init q v h =
      pmm_init-blocks mm b memory q h
      ∙ ap
          (λ r.
            r
            || (not (in_regions mm.usable_regions q)
                && (ltb q ((mm.total_memory / 4096 + 7) / 8 * 8) || used memory q)))
          (reserved-pages q v)
