-- ===== src/Process/Dir.antt =====
-- The page directory of a process, src/userspace/uprocess.c. The kernel's directory, in frame
-- `kern`, has three slots that name the frames at hand: the window at `TEMP_PD_VIRT` is the frame
-- that slot 1020 names, and so on. Flushing the TLB has no counterpart.
pub mod Same
pub mod Windows
pub mod Share
use frog_kernel.Base.{ℕ, ◌+◌, ◌%◌, ◌/◌, ◌*◌, ◌&&◌, ltb, leb, ◌==◌, if◌then◌else◌}
use frog_kernel.Base.Store.{Array, Outcome, ok, panic, ◌>>=◌}
use frog_kernel.Memory.Pmm.{Pmm, alloc_frame}
use frog_kernel.Memory.Paging.{
  Frames, Space, recursive_slot, store, clear_page, is_present, or_flags, entry, frame_of, pd_index,
  pt_index, pd_flags,
}

abbrev pub temp_pd_slot : ℕ
temp_pd_slot = 1020

abbrev pub temp_frame_slot : ℕ
temp_frame_slot = 1021

abbrev pub temp_pt_slot : ℕ
temp_pt_slot = 1022

-- `kern_pd[slot] = phys | PAGE_PRESENT | PAGE_RW`
abbrev pub open_window : Frames → (kern slot phys : ℕ) → Frames
open_window m kern slot phys = store m kern slot (or_flags phys 0x3)

abbrev pub close_window : Frames → (kern slot : ℕ) → Frames
close_window m kern slot = store m kern slot 0

-- The frame that is seen through the window of a slot.
abbrev pub window : Frames → (kern slot : ℕ) → ℕ
window m kern slot = frame_of (m kern slot)

-- A page table for slot `pdi` of the directory in the window, in the frame that was allocated.
unfoldable pub foreign_table : Frames → (kern pdi flags : ℕ) → ℕ × Pmm → Outcome Space
foreign_table m kern pdi flags (pt_phys, pmm') =
    let named = store m (window m kern temp_pd_slot) pdi (or_flags pt_phys (pd_flags flags)) in
    let opened = open_window named kern temp_pt_slot pt_phys in
    let cleared = clear_page opened (window opened kern temp_pt_slot) in
    ok (record { frames = close_window cleared kern temp_pt_slot; pmm = pmm' })

unfoldable pub foreign_ensure : Space → (kern pdi flags : ℕ) → Outcome Space
foreign_ensure s kern pdi flags =
    if is_present (s.frames (window s.frames kern temp_pd_slot) pdi)
    then ok s
    else (alloc_frame s.pmm >>= foreign_table s.frames kern pdi flags)

-- The write to the table, and the windows are closed.
unfoldable pub foreign_write : Frames → (kern pdi pti value : ℕ) → Frames
foreign_write m kern pdi pti value =
    let opened =
      open_window m kern temp_pt_slot (frame_of (m (window m kern temp_pd_slot) pdi) * 0x1000) in
    let wrote = store opened (window opened kern temp_pt_slot) pti value in
    close_window (close_window wrote kern temp_pd_slot) kern temp_pt_slot

unfoldable pub foreign_map_page : Space → (kern pd_phys phys virt flags : ℕ) → Outcome Space
foreign_map_page s kern pd_phys phys virt flags =
    foreign_ensure (record s { frames = open_window s.frames kern temp_pd_slot pd_phys }) kern
      (pd_index virt) flags
    >>= λ t. ok (record t {
      frames = foreign_write t.frames kern (pd_index virt) (pt_index virt) (entry phys flags);
    })

-- `memset` of the user's half and the copy of the kernel's, in the frame `pd`.
unfoldable pub share_kernel : Frames → (kern pd : ℕ) → Frames
share_kernel m kern pd g i =
    if g == pd && ltb i 1024 then (if ltb i 768 then 0 else m kern i) else m g i

-- The new directory, in the frame that was allocated.
unfoldable pub fill_dir : (kern : ℕ) → Frames → ℕ × Pmm → ℕ × Space
fill_dir kern m (pd_phys, pmm') =
    let opened = open_window m kern temp_pd_slot pd_phys in
    let pd = window opened kern temp_pd_slot in
    let shared = share_kernel opened kern pd in
    let own = store shared pd recursive_slot (or_flags pd_phys 0x3) in
    (
      pd_phys,
      record { frames = close_window (store own pd temp_pd_slot 0) kern temp_pd_slot; pmm = pmm' },
    )

unfoldable pub uprocess_create_pagedir : Space → (kern : ℕ) → Outcome (ℕ × Space)
unfolding fill_dir
uprocess_create_pagedir s kern = alloc_frame s.pmm >>= λ r. ok (fill_dir kern s.frames r)
