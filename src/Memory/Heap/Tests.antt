-- ===== src/Memory/Heap/Tests.antt =====
-- A heap of three blocks: one given out, one free, one given out.
use frog_kernel.Base.{ℕ, ◌≡◌, true, false, [], ◌∷◌, some, arith, refl}
use frog_kernel.Base.Store.{ok}
use frog_kernel.Memory.Paging.{Space}
use frog_kernel.Memory.Heap.{
  Heap, used_block, free_block, kmalloc, kfree, has_block, serve, find_fit, carve, behind,
  next_free,
}
use frog_kernel.Memory.Heap.Blocks.{Inserted, used}
use frog_kernel.Memory.Heap.Alloc.{IsValid, kmalloc_lem}
use frog_kernel.Memory.Heap.Release.{kfree_lem}
use frog_kernel.Memory.Heap.Merge.{in_use}

abbrev space : Space
space = record {
  frames = λ f i. 0;
  pmm = record { bitmap = λ i. 0xff; total_pages = 8; bitmap_addr = 0; bitmap_size = 1 };
}

abbrev heap : Heap
heap = record {
  blocks = used_block 0x114 0x40 ∷ free_block 0x168 0x84 ∷ used_block 0x200 0x100 ∷ [];
  free_head = 0x154;
  kheap_end = 0x1000;
  kheap_size = 0xf00;
  space = space;
}

heap-IsValid : IsValid 0x100 heap
heap-IsValid = record {
  above = omega arith;
  below = omega arith;
  ordered = (omega arith, (omega arith, (omega arith, omega arith)));
}

-- The heap after a call for 16 bytes.
abbrev after : Heap
after = record heap {
  blocks =
      used_block 0x114 0x40
      ∷ used_block 0x168 0x10
      ∷ free_block 0x18c 0x60
      ∷ used_block 0x200 0x100
      ∷ [];
  free_head = 0x178;
}

runs : kmalloc 1 0 heap 0x10 ≡ some (ok (0x168, after))
unfolding kmalloc serve find_fit carve behind next_free
runs = refl

kmalloc_lem_example :
    IsValid 0x100 after × Inserted (used_block 0x168 0x10) (used heap.blocks) (used after.blocks)
kmalloc_lem_example = kmalloc_lem 0x100 1 0 0x10 0x168 heap after heap-IsValid (omega arith) runs

given : has_block 0x114 heap.blocks ≡ true
unfolding has_block
given = refl

kfree_lem_example :
    (h' : Heap) × (kfree heap 0x114 ≡ some h')
    × IsValid 0x100 h'
    × (in_use 0x114 heap.blocks ≡ false → h' ≡ heap)
    × (in_use 0x114 heap.blocks ≡ true
        → (n : ℕ) × Inserted (used_block 0x114 n) (used h'.blocks) (used heap.blocks))
kfree_lem_example = kfree_lem 0x100 0x114 heap heap-IsValid (λ e. omega arith) given
