-- ===== src/Memory/Paging/Walk.antt =====
-- The specification of paging: the processor's walk from a virtual to a physical address, and the
-- invariant of an address space. The slots below the recursive one hold page tables.
use frog_kernel.Base.{ℕ, ◌+◌, ◌*◌, ◌%◌, ◌<◌, ◌≡◌, ◌≢◌, true, Option, none, some, if◌then◌else◌}
use frog_kernel.Memory.Pmm.Bits.{used}
use frog_kernel.Memory.Pmm.Frames
use frog_kernel.Memory.Paging.{
  Frames, Space, recursive_slot, is_present, frame_of, pd_index, pt_index,
}

-- The walk through the directory in frame `dir`.
unfoldable pub walk_table : Frames → (table virt : ℕ) → Option ℕ
walk_table m table virt =
    if is_present (m table (pt_index virt))
    then some (frame_of (m table (pt_index virt)) * 0x1000 + virt % 0x1000)
    else none

unfoldable pub translate : Frames → (dir virt : ℕ) → Option ℕ
translate m dir virt =
    if is_present (m dir (pd_index virt))
    then walk_table m (frame_of (m dir (pd_index virt))) virt
    else none

-- The directory and its tables lie in distinct frames, all of them taken from the allocator.
pub record IsSpace (dir : ℕ) (s : Space) : Type 0 where
  pub valid : Frames.IsValid s.pmm
  pub dir_used : used s.pmm.bitmap dir ≡ true
  pub table_used :
      (i : ℕ)
      → i < recursive_slot
      → is_present (s.frames dir i) ≡ true
      → used s.pmm.bitmap (frame_of (s.frames dir i)) ≡ true
  pub not_dir :
      (i : ℕ)
      → i < recursive_slot
      → is_present (s.frames dir i) ≡ true
      → frame_of (s.frames dir i) ≢ dir
  pub distinct :
      (i j : ℕ)
      → i < recursive_slot
      → j < recursive_slot
      → is_present (s.frames dir i) ≡ true
      → is_present (s.frames dir j) ≡ true
      → frame_of (s.frames dir i) ≡ frame_of (s.frames dir j)
      → i ≡ j
