-- ===== src/Process/Load/Page.antt =====
-- `fill_page` in `uprocess_load` of src/userspace/uprocess.c: what a page of a segment holds.
use frog_kernel.Base.{
  ℕ, zero, suc, ◌+◌, ◌-◌, ◌/◌, ◌%◌, ◌^◌, ◌<◌, ◌≤◌, ◌≡◌, refl, ◌∙◌, ap, false, ◌&&◌, ◌||◌,
  Bool-cases, inl, inr, ltb, leb, ◌==◌, if◌then◌else◌, arith,
}
use frog_kernel.Base.Store.{Array, update}
use frog_kernel.Memory.Pmm.{page_size}
use frog_kernel.Memory.Paging.{or_flags, frame_of}
use frog_kernel.Memory.Paging.Write.{store_self}
use frog_kernel.Process.Dir.{temp_frame_slot, open_window, window}
use frog_kernel.Process.Dir.Windows.{window_frame}
use frog_kernel.Process.Load.{
  Image, Part, Phdr, zero_bytes, copy_bytes, through_window, zero_phys, copy_to_phys, part,
  fill_page, page_end, file_end,
}

zero_bytes_lem :
    (d : Array ℕ) (o n i : ℕ) → zero_bytes d o n i ≡ (if leb o i && ltb i (o + n) then 0 else d i)
unfolding zero_bytes
zero_bytes_lem d o zero i = ground arith
zero_bytes_lem d o (suc n) i = ground (arith, zero_bytes_lem (update d o 0) (o + 1) n i)

pub copy_bytes_lem :
    (d : Array ℕ) (o : ℕ) (src : Array ℕ) (from n i : ℕ)
    → copy_bytes d o src from n i ≡ (if leb o i && ltb i (o + n) then src (from + (i - o)) else d i)
unfolding copy_bytes
copy_bytes_lem d o src from zero i = ground arith
copy_bytes_lem d o src from (suc n) i =
    ground (arith, copy_bytes_lem (update d o (src from)) (o + 1) src (from + 1) n i)

-- The window of slot 1021 shows the frame that was asked for.
through_window_lem :
    (img : Image) (kern phys : ℕ) (change : Array ℕ → Array ℕ)
    → phys % 0x1000 ≡ 0
    → (g : ℕ)
    → (through_window img kern phys change).bytes g
      ≡ (if g == phys / 0x1000 then change (img.bytes g) else img.bytes g)
unfolding through_window
through_window_lem img kern phys change h g = rw shown refl
  where
    shown :
        window (open_window img.space.frames kern temp_frame_slot phys) kern temp_frame_slot
        ≡ phys / 0x1000
    shown =
        ap frame_of (store_self img.space.frames kern temp_frame_slot (or_flags phys 0x3))
        ∙ window_frame phys h

module _ (img : Image) (kern phys : ℕ) (h : phys % 0x1000 ≡ 0) where
  zero_phys_lem :
      (o n g i : ℕ)
      → (zero_phys img kern phys o n).bytes g i
        ≡ (if g == phys / 0x1000 && (leb o i && ltb i (o + n)) then 0 else img.bytes g i)
  unfolding zero_phys
  zero_phys_lem o n g i =
      ap (λ d. d i) (through_window_lem img kern phys (λ d. zero_bytes d o n) h g)
      ∙ ground (arith, zero_bytes_lem (img.bytes g) o n i)

  copy_to_phys_lem :
      (o : ℕ) (src : Array ℕ) (from n g i : ℕ)
      → (copy_to_phys img kern phys o src from n).bytes g i ≡ (
          if g == phys / 0x1000 && (leb o i && ltb i (o + n))
          then src (from + (i - o))
          else img.bytes g i)
  unfolding copy_to_phys
  copy_to_phys_lem o src from n g i =
      ap (λ d. d i) (through_window_lem img kern phys (λ d. copy_bytes d o src from n) h g)
      ∙ ground (arith, copy_bytes_lem (img.bytes g) o src from n i)

-- The byte that a segment has at a virtual address: the file's, or 0 behind the part that the file
-- gives and before the segment.
unfoldable pub segment_byte : Array ℕ → Phdr → (a : ℕ) → ℕ
segment_byte file p a =
    if leb p.p_vaddr a && ltb a (p.p_vaddr + p.p_filesz)
    then file (p.p_offset + (a - p.p_vaddr))
    else 0

-- The part of a page that meets the file's part of the segment.
module _ (p : Phdr) (virt : ℕ) (v : p.p_vaddr + p.p_filesz < 2 ^ 32)
    (o : p.p_offset + p.p_filesz < 2 ^ 32) (w : virt + page_size < 2 ^ 32)
    (lo : p.p_vaddr < virt + page_size) (hi : virt < p.p_vaddr + p.p_filesz) where
  part_range :
      (i : ℕ)
      → i < page_size
      → (leb (part p virt).offset_in_page i
          && ltb i ((part p virt).offset_in_page + (part p virt).copy_len))
        ≡ (leb p.p_vaddr (virt + i) && ltb (virt + i) (p.p_vaddr + p.p_filesz))
  unfolding part
  part_range i h = ground arith

  part_source :
      (i : ℕ)
      → p.p_vaddr ≤ virt + i
      → (part p virt).offset_in_file + (i - (part p virt).offset_in_page)
        ≡ p.p_offset + (virt + i - p.p_vaddr)
  unfolding part
  part_source i h = ground arith

-- If neither the segment nor its part of the file nor the page reaches past 2^32, then the frame at
-- a page of the segment holds, at each offset, the byte that the segment has at that address, and no
-- other frame's bytes change.
pub fill_page_lem :
    (img : Image) (kern phys : ℕ) (file : Array ℕ) (p : Phdr) (virt : ℕ)
    → phys % 0x1000 ≡ 0
    → p.p_vaddr + p.p_filesz < 2 ^ 32
    → p.p_offset + p.p_filesz < 2 ^ 32
    → virt + page_size < 2 ^ 32
    → ((i : ℕ)
        → i < page_size
        → (fill_page img kern phys file p virt).bytes (phys / 0x1000) i
          ≡ segment_byte file p (virt + i))
      × ((g i : ℕ)
          → (g == phys / 0x1000) ≡ false
          → (fill_page img kern phys file p virt).bytes g i ≡ img.bytes g i)
unfolding fill_page segment_byte
fill_page_lem img kern phys file p virt h v o w =
    elim (Bool-cases (leb (page_end virt) p.p_vaddr || leb (file_end p) virt)) [
      | inl apart ↦ rw apart (
        λ i lt. ground (arith, zero_phys_lem img kern phys h 0 page_size (phys / 0x1000) i),
        λ g i ne. ground (arith, zero_phys_lem img kern phys h 0 page_size g i),
      )
      | inr meets ↦ rw meets (
          with_part (part p virt) (part_range p virt v o w (ground arith) (ground arith))
            (part_source p virt v o w (ground arith) (ground arith)))
    ]
  where
    with_part :
        (c : Part)
        → ((i : ℕ)
            → i < page_size
            → (leb c.offset_in_page i && ltb i (c.offset_in_page + c.copy_len))
              ≡ (leb p.p_vaddr (virt + i) && ltb (virt + i) (p.p_vaddr + p.p_filesz)))
        → ((i : ℕ)
            → p.p_vaddr ≤ virt + i
            → c.offset_in_file + (i - c.offset_in_page) ≡ p.p_offset + (virt + i - p.p_vaddr))
        → (let img' =
              copy_to_phys
                (zero_phys img kern phys 0 page_size)
                kern
                phys
                c.offset_in_page
                file
                c.offset_in_file
                c.copy_len in
            ((i : ℕ)
              → i < page_size
              → img'.bytes (phys / 0x1000) i ≡ segment_byte file p (virt + i))
            × ((g i : ℕ) → (g == phys / 0x1000) ≡ false → img'.bytes g i ≡ img.bytes g i))
    with_part c range source = (
      λ i lt.
          copy_to_phys_lem (zero_phys img kern phys 0 page_size) kern phys h c.offset_in_page file
            c.offset_in_file c.copy_len (phys / 0x1000) i
          ∙ ground (
            arith,
            range i lt,
            source i,
            zero_phys_lem img kern phys h 0 page_size (phys / 0x1000) i,
          ),
      λ g i ne.
          copy_to_phys_lem (zero_phys img kern phys 0 page_size) kern phys h c.offset_in_page file
            c.offset_in_file c.copy_len g i
          ∙ ground (arith, ne, zero_phys_lem img kern phys h 0 page_size g i),
    )
