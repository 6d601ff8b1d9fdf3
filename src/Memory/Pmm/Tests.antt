-- ===== src/Memory/Pmm/Tests.antt =====
-- The physical memory manager on a machine with 2 MiB: the kernel at 1 MiB, the bitmap behind it,
-- and a framebuffer far above the memory.
use frog_kernel.Base.{ℕ, ◌≡◌, ◌+◌, ◌/◌, ◌*◌, refl, [], ◌∷◌, arith, not, ◌&&◌, ◌||◌, ltb}
use frog_kernel.Base.Store.{Array, ok}
use frog_kernel.Memory.Mmap.{Mmap}
use frog_kernel.Memory.Pmm.{
  Pmm, bit_set, bit_clear, bit_test, mark_used, mark_free, find_free, alloc_frame, free_frame,
}
use frog_kernel.Memory.Pmm.Bits.{used}
use frog_kernel.Memory.Pmm.Boot.{in_regions, pmm_init-IsValid}
use frog_kernel.Memory.Pmm.Reserved.{IsMachine, is_reserved, used-pmm_init}
use frog_kernel.Memory.Pmm.Frames.{IsValid, Alloc, Free, alloc_ok, alloc_frame_lem, free_frame_lem}
use frog_kernel.Memory.Pmm.Init.{Boot, pmm_init}

abbrev mm : Mmap
mm = record {
  usable_regions = record { base = 0x100000; length = 0x100000 } ∷ [];
  total_memory = 0x200000;
}

abbrev boot : Boot
boot = record {
  kend = 0xc0110000;
  kpstart = 0x100000;
  kpend = 0x110000;
  framebuffer_addr = 0xfd000000;
  framebuffer_pitch = 64;
  framebuffer_height = 64;
  fb = 0xc010f000;
}

abbrev zeroes : Array ℕ
zeroes i = 0

abbrev p0 : Pmm
p0 = pmm_init mm boot zeroes

p0-IsValid : IsValid p0
p0-IsValid = pmm_init-IsValid mm boot zeroes (λ i. omega arith) (omega arith)

-- The first frame behind the bitmap.
abbrev p1 : Pmm
p1 = record p0 { bitmap = bit_set p0.bitmap 0x111 }

first_frame : alloc_frame p0 ≡ ok (0x111000, p1)
unfolding pmm_init mark_used mark_free bit_test bit_set bit_clear alloc_frame find_free
first_frame = refl

alloc_frame_lem_example : Alloc p0 (alloc_frame p0)
alloc_frame_lem_example = alloc_frame_lem p0 p0-IsValid

free_frame_lem_example : Free p1 0x111000 (free_frame p1 0x111000)
free_frame_lem_example = free_frame_lem p1 0x111000 (alloc_ok p0 p0-IsValid first_frame).1

boot-IsMachine : IsMachine boot 0x200000
boot-IsMachine = record {
  kernel = omega arith;
  kernel_end = omega arith;
  half = omega arith;
  bitmap_end = omega arith;
  pages = omega arith;
  framebuffer_page = refl;
  framebuffer_end = omega arith;
  framebuffer_size = omega arith;
  fb_half = omega arith;
  fb_end = omega arith;
}

used-pmm_init_example : used p0.bitmap 0x120 ≡ (
    is_reserved boot 0x200000 0x120
    || (not (in_regions mm.usable_regions 0x120)
        && (ltb 0x120 ((0x200000 / 4096 + 7) / 8 * 8) || used zeroes 0x120)))
used-pmm_init_example = used-pmm_init mm boot zeroes 0x120 boot-IsMachine (λ i. omega arith)
