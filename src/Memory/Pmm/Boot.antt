-- ===== src/Memory/Pmm/Boot.antt =====
-- The state that `pmm_init` of src/memory/pmm.c leaves.
use frog_kernel.Base.{
  ℕ, ◌+◌, ◌*◌, ◌/◌, ◌%◌, ◌^◌, ◌<◌, ◌≤◌, ◌≡◌, ◌≢◌, refl, Bool, true, false, not, ◌&&◌, ◌||◌, List,
  [], ◌∷◌, ltb, ◌==◌, arith, bit_and,
}
use frog_kernel.Base.Store.{Array, ok, rows_pass, row-rows_pass}
use frog_kernel.Memory.Mmap.{Region, Mmap}
use frog_kernel.Memory.Pmm.{
  Pmm, page_size, addr_to_page, page_count, bit_test, mark_used, mark_free, alloc_frame,
}
use frog_kernel.Memory.Pmm.Frames.{IsValid, alloc_ok}
use frog_kernel.Memory.Pmm.Bits.{
  IsBytes, used, in_pages, used-set_from, used-clear_from, set_from-IsBytes, clear_from-IsBytes,
}
use frog_kernel.Memory.Pmm.Init.{
  Boot, page_up, fill_ff, free_regions, Block, reserved_blocks, mark_blocks, pmm_init,
}

-- Page `q` belongs to a block, or to one of a list of blocks or regions.
abbrev pub in_block : (addr len q : ℕ) → Bool
in_block addr len q = in_pages (addr_to_page addr) (page_count len) q

unfoldable pub in_blocks : List Block → ℕ → Bool
in_blocks [] q = false
in_blocks (b ∷ bs) q = in_block b.addr b.len q || in_blocks bs q

unfoldable pub in_regions : List Region → ℕ → Bool
in_regions [] q = false
in_regions (r ∷ rs) q = in_block r.base r.length q || in_regions rs q

used-mark_used :
    (m : Array ℕ) (addr len q : ℕ)
    → IsBytes m
    → used (mark_used m addr len) q ≡ (in_block addr len q || used m q)
unfolding mark_used
used-mark_used m addr len q h = used-set_from (page_count len) m (addr_to_page addr) q h

mark_blocks-IsBytes : (bs : List Block) (m : Array ℕ) → IsBytes m → IsBytes (mark_blocks m bs)
unfolding mark_blocks mark_used
mark_blocks-IsBytes [] m h = h
mark_blocks-IsBytes (b ∷ bs) m h =
    mark_blocks-IsBytes bs _ (set_from-IsBytes (page_count b.len) m (addr_to_page b.addr) h)

used-mark_blocks :
    (bs : List Block) (m : Array ℕ) (q : ℕ)
    → IsBytes m
    → used (mark_blocks m bs) q ≡ (in_blocks bs q || used m q)
unfolding mark_blocks in_blocks mark_used
used-mark_blocks [] m q h = refl
used-mark_blocks (b ∷ bs) m q h = ground (
  arith,
  used-mark_blocks bs (mark_used m b.addr b.len) q
      (set_from-IsBytes (page_count b.len) m (addr_to_page b.addr) h),
  used-set_from (page_count b.len) m (addr_to_page b.addr) q h,
)

free_regions-IsBytes : (rs : List Region) (m : Array ℕ) → IsBytes m → IsBytes (free_regions m rs)
unfolding free_regions mark_free
free_regions-IsBytes [] m h = h
free_regions-IsBytes (r ∷ rs) m h =
    free_regions-IsBytes rs _ (clear_from-IsBytes (page_count r.length) m (addr_to_page r.base) h)

used-free_regions :
    (rs : List Region) (m : Array ℕ) (q : ℕ)
    → IsBytes m
    → used (free_regions m rs) q ≡ (not (in_regions rs q) && used m q)
unfolding free_regions in_regions mark_free
used-free_regions [] m q h = refl
used-free_regions (r ∷ rs) m q h = ground (
  arith,
  used-free_regions rs (mark_free m r.base r.length) q
      (clear_from-IsBytes (page_count r.length) m (addr_to_page r.base) h),
  used-clear_from (page_count r.length) m (addr_to_page r.base) q h,
)

fill_ff-IsBytes : (m : Array ℕ) (n : ℕ) → IsBytes m → IsBytes (fill_ff m n)
unfolding fill_ff
fill_ff-IsBytes m n h i = ground (arith, h i)

ones_table : rows_pass 8 (λ j. not (bit_and 0xff (2 ^ j) == 0)) ≡ true
unfolding rows_pass
ones_table = refl

used-fill_ff : (m : Array ℕ) (n q : ℕ) → used (fill_ff m n) q ≡ (ltb q (n * 8) || used m q)
unfolding used bit_test fill_ff
used-fill_ff m n q =
    ground (arith, row-rows_pass 8 (λ j. not (bit_and 0xff (2 ^ j) == 0)) (q % 8) ones_table)

used_at : (m n : Array ℕ) (q : ℕ) → m (q / 8) ≡ n (q / 8) → used m q ≡ used n q
unfolding used bit_test
used_at m n q e = rw e

module _ (mm : Mmap) (b : Boot) (memory : Array ℕ) where
  -- The blocks that `pmm_init` reserves on this machine, and the page that the search ends at.
  abbrev pub reserved : List Block
  reserved = reserved_blocks b (page_up b.kend) ((mm.total_memory / page_size + 7) / 8)

  -- On a memory of bytes, after `pmm_init` page `q` is used exactly if it belongs to a reserved block, or to no usable
  -- region while its bit was set at the start: by `memset` if the bitmap has a byte for it, by
  -- what lay in memory otherwise.
  pub pmm_init-blocks :
      (q : ℕ)
      → IsBytes memory
      → used (pmm_init mm b memory).bitmap q ≡ (
          in_blocks reserved q
          || (not (in_regions mm.usable_regions q)
              && (ltb q ((pmm_init mm b memory).bitmap_size * 8) || used memory q)))
  unfolding pmm_init
  pmm_init-blocks q h =
      let size = (mm.total_memory / page_size + 7) / 8 in
      let filled = fill_ff-IsBytes memory size h in
      rw (
        used-mark_blocks reserved (free_regions (fill_ff memory size) mm.usable_regions) q
            (free_regions-IsBytes mm.usable_regions (fill_ff memory size) filled),
        used-free_regions mm.usable_regions (fill_ff memory size) q filled,
        used-fill_ff memory size q,
      )

  -- On a memory of bytes and with a 32-bit total, `pmm_init` leaves a valid bitmap: one of bytes,
  -- with a bit for every page, whose addresses fit in 32 bits.
  pub pmm_init-IsValid : IsBytes memory → mm.total_memory < 2 ^ 32 → IsValid (pmm_init mm b memory)
  unfolding pmm_init
  pmm_init-IsValid h small =
      let size = (mm.total_memory / page_size + 7) / 8 in
      record {
        bytes =
            mark_blocks-IsBytes reserved (free_regions (fill_ff memory size) mm.usable_regions) (
              free_regions-IsBytes mm.usable_regions (fill_ff memory size)
                (fill_ff-IsBytes memory size h));
        covered = omega arith;
        addressable = omega arith;
      }

  -- On a memory of bytes and with a 32-bit total, the first frame that is allocated after
  -- `pmm_init` lies in a usable region and in no reserved
  -- block: not in the first MiB, the kernel, the bitmap or the framebuffer.
  pub alloc_frame-pmm_init :
      {a : ℕ} {p' : Pmm}
      → IsBytes memory
      → mm.total_memory < 2 ^ 32
      → alloc_frame (pmm_init mm b memory) ≡ ok (a, p')
      → (in_regions mm.usable_regions (a / page_size) ≡ true)
        × (in_blocks reserved (a / page_size) ≡ false)
  alloc_frame-pmm_init {a} h small e =
      let v = pmm_init-IsValid h small in
      let (al, v') = alloc_ok (pmm_init mm b memory) v e in
      ground (arith, pmm_init-blocks (a / page_size) h, al.in_range, al.was_free, v.covered)

  -- On a memory of bytes, if a reserved block has a page past the last bit of the bitmap, and the bit that stands for the
  -- page there was clear, then `pmm_init` changes a byte of memory behind the bitmap.
  pub pmm_init_overrun :
      (q : ℕ)
      → IsBytes memory
      → in_blocks reserved q ≡ true
      → (pmm_init mm b memory).bitmap_size * 8 ≤ q
      → used memory q ≡ false
      → (i : ℕ) × ((pmm_init mm b memory).bitmap_size ≤ i)
        × ((pmm_init mm b memory).bitmap i ≢ memory i)
  pmm_init_overrun q h block past clear =
      (q / 8, omega arith, λ e. changed (used_at (pmm_init mm b memory).bitmap memory q e))
    where
      changed : used (pmm_init mm b memory).bitmap q ≡ used memory q → ⊥
      changed e = ground (arith, pmm_init-blocks q h)
