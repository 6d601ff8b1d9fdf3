-- ===== src/Memory/Paging/Tests.antt =====
-- Paging on a directory in frame 2 with one table, in frame 3, that maps 0x400000 to 0x9000.
use frog_kernel.Base.{refl, arith, if◌then◌else◌, ◌==◌, ◌&&◌}
use frog_kernel.Memory.Pmm.{Pmm, bit_test}
use frog_kernel.Memory.Pmm.Bits.{used}
use frog_kernel.Memory.Paging.{Frames, Space, map_page, unmap_page}
use frog_kernel.Memory.Paging.Walk.{IsSpace}
use frog_kernel.Memory.Paging.Map.{Mapped, map_page_lem}
use frog_kernel.Memory.Paging.Unmap.{Unmapped, unmap_page_lem}

abbrev pmm : Pmm
pmm = record {
  bitmap = λ i. if i == 0 then 0x0f else 0;
  total_pages = 64;
  bitmap_addr = 0xc0110000;
  bitmap_size = 8;
}

abbrev frames : Frames
frames g i = if g == 2 && i == 1 then 0x3007 else if g == 3 && i == 0 then 0x9007 else 0

abbrev space : Space
space = record { frames = frames; pmm = pmm }

space-IsSpace : IsSpace 2 space
unfolding used bit_test
space-IsSpace = record {
  valid = record { bytes = λ i. ground arith; covered = omega arith; addressable = omega arith };
  dir_used = refl;
  table_used = λ i h t. ground arith;
  not_dir = λ i h t. ground arith;
  distinct = λ i j h k t u e. ground arith;
}

-- A page of the same table, and one that needs a new table.
map_page_lem_example : Mapped space 2 0xa000 0x401000 (map_page space 2 0xa000 0x401000 7)
map_page_lem_example = map_page_lem space 0xa000 0x401000 7 space-IsSpace (omega arith)

unmap_page_lem_example : Unmapped space 2 0x401000 (unmap_page space 2 0x401000)
unmap_page_lem_example = unmap_page_lem space 0x401000 space-IsSpace (omega arith)
