-- ===== src/Process/Load.antt =====
-- Loading a program, `uprocess_load` of src/userspace/uprocess.c, with the headers of src/ksym/elf.h.
-- The words of directories and tables are those of Memory.Paging; the bytes of a page that a program
-- sees are `bytes`, by frame and offset. The kernel's buffer with the file is a function from the
-- offset to the byte. `size`, which the code does not read, is left out.
pub mod Page
pub mod Args
use frog_kernel.Base.{
  ℕ, zero, suc, ◌+◌, ◌-◌, ◌*◌, ◌/◌, ◌%◌, ◌^◌, Bool, not, ◌||◌, ltb, leb, ◌==◌, if◌then◌else◌,
  bit_or,
}
use frog_kernel.Base.Store.{Array, update, Outcome, ok, panic, ◌>>=◌}
use frog_kernel.Misc.Util.{kernel_virt_base}
use frog_kernel.Memory.Pmm.{Pmm, alloc_frame, page_size}
use frog_kernel.Memory.Paging.{Frames, Space, frame_of, page_present, page_rw, page_user}
use frog_kernel.Process.Dir.{temp_frame_slot, open_window, close_window, window, foreign_map_page}

pub record Image : Type 0 where
  pub space : Space
  pub bytes : Frames

abbrev pub user_stack_top : ℕ
user_stack_top = 0xb0000000

-- A change of the page that is seen through the window of slot 1021, which is closed again.
unfoldable pub through_window : Image → (kern phys : ℕ) → (Array ℕ → Array ℕ) → Image
through_window img kern phys change =
    let m = open_window img.space.frames kern temp_frame_slot phys in
    let f = window m kern temp_frame_slot in
    record {
      space = record { frames = close_window m kern temp_frame_slot; pmm = img.space.pmm };
      bytes = λ g. if g == f then change (img.bytes g) else img.bytes g;
    }

-- `memset(p, 0, len)` and `memcpy` from another buffer, byte by byte.
unfoldable pub zero_bytes : Array ℕ → (offset len : ℕ) → Array ℕ
zero_bytes d offset zero = d
zero_bytes d offset (suc n) = zero_bytes (update d offset 0) (offset + 1) n

unfoldable pub copy_bytes : Array ℕ → (offset : ℕ) → (src : Array ℕ) → (from len : ℕ) → Array ℕ
copy_bytes d offset src from zero = d
copy_bytes d offset src from (suc n) =
    copy_bytes (update d offset (src from)) (offset + 1) src (from + 1) n

unfoldable pub zero_phys : Image → (kern phys offset len : ℕ) → Image
unfolding through_window zero_bytes
zero_phys img kern phys offset len = through_window img kern phys (λ d. zero_bytes d offset len)

unfoldable pub copy_to_phys :
    Image → (kern phys offset : ℕ) → (src : Array ℕ) → (from len : ℕ) → Image
unfolding through_window copy_bytes
copy_to_phys img kern phys offset src from len =
    through_window img kern phys (λ d. copy_bytes d offset src from len)

-- The fields of `Elf32_Phdr` that are read.
pub record Phdr : Type 0 where
  pub p_type : ℕ
  pub p_offset : ℕ
  pub p_vaddr : ℕ
  pub p_filesz : ℕ
  pub p_memsz : ℕ
  pub p_flags : ℕ

unfoldable pub half_at : Array ℕ → ℕ → ℕ
half_at file i = file i + file (i + 1) * 0x100

unfoldable pub word_at : Array ℕ → ℕ → ℕ
word_at file i = file i + file (i + 1) * 0x100 + file (i + 2) * 0x10000 + file (i + 3) * 0x1000000

unfoldable pub phdr_at : Array ℕ → ℕ → Phdr
unfolding word_at
phdr_at file i = record {
  p_type = word_at file i;
  p_offset = word_at file (i + 4);
  p_vaddr = word_at file (i + 8);
  p_filesz = word_at file (i + 16);
  p_memsz = word_at file (i + 20);
  p_flags = word_at file (i + 24);
}

-- What a page of a segment gets of the file: where in the page, from where in the file, how much.
pub record Part : Type 0 where
  pub offset_in_page : ℕ
  pub offset_in_file : ℕ
  pub copy_len : ℕ

abbrev pub page_end : ℕ → ℕ
page_end virt = (virt + page_size) % 2 ^ 32

abbrev pub file_end : Phdr → ℕ
file_end p = (p.p_vaddr + p.p_filesz) % 2 ^ 32

unfoldable pub part : Phdr → (virt : ℕ) → Part
part p virt =
    let copy_start = (if ltb virt p.p_vaddr then p.p_vaddr else virt) in
    let copy_end = (if ltb (file_end p) (page_end virt) then file_end p else page_end virt) in
    record {
      offset_in_page = copy_start - virt;
      offset_in_file = (p.p_offset + (copy_start - p.p_vaddr)) % 2 ^ 32;
      copy_len = (copy_end + 2 ^ 32 - copy_start) % 2 ^ 32;
    }

-- The page is zeroed, and gets its part of the file if it has one.
unfoldable pub fill_page : Image → (kern phys : ℕ) → (file : Array ℕ) → Phdr → (virt : ℕ) → Image
unfolding part
fill_page img kern phys file p virt =
    let cleared = zero_phys img kern phys 0 page_size in
    let c = part p virt in
    if leb (page_end virt) p.p_vaddr || leb (file_end p) virt
    then cleared
    else copy_to_phys cleared kern phys c.offset_in_page file c.offset_in_file c.copy_len

-- A fresh frame is mapped at a page of the new address space, and filled.
unfoldable pub map_fresh : Image → (kern pd_phys virt flags : ℕ) → Outcome (ℕ × Image)
map_fresh img kern pd_phys virt flags = alloc_frame img.space.pmm >>= λ r.
    (foreign_map_page (record img.space { pmm = r.1 }) kern pd_phys r.0 virt flags >>= λ space.
    ok (r.0, record img { space = space }))

-- The loop over the pages of a segment, with the rounds left. A segment ends at or below
-- `USER_STACK_TOP`, so `virt` does not wrap.
unfoldable pub load_pages :
    Image → (kern pd_phys : ℕ) → (file : Array ℕ) → Phdr → (flags rounds virt : ℕ) → Outcome Image
unfolding map_fresh fill_page
load_pages img kern pd_phys file p flags zero virt = ok img
load_pages img kern pd_phys file p flags (suc n) virt =
    map_fresh img kern pd_phys virt flags >>= λ r.
    load_pages (fill_page r.1 kern r.0 file p virt) kern pd_phys file p flags n (virt + page_size)

abbrev pub pt_load : ℕ
pt_load = 1

abbrev pub seg_end : Phdr → ℕ
seg_end p = (p.p_vaddr + p.p_memsz) % 2 ^ 32

-- `PF_W` is bit 1.
abbrev pub segment_flags : Phdr → ℕ
segment_flags p = if p.p_flags / 2 % 2 == 1 then bit_or page_user page_rw else page_user

-- The rounds of the loop from `virt_start` up to `virt_end`.
abbrev pub page_rounds : Phdr → ℕ
page_rounds p = (seg_end p - p.p_vaddr / 0x1000 * 0x1000 + 0xfff) / 0x1000

-- A round of the loop over the program headers: the highest end of a segment so far, and the image.
unfoldable pub load_segment :
    (kern pd_phys : ℕ) → (file : Array ℕ) → Phdr → ℕ × Image → Outcome (ℕ × Image)
unfolding load_pages
load_segment kern pd_phys file p (highest, img) =
    if not (p.p_type == pt_load)
    then ok (highest, img)
    else if leb kernel_virt_base p.p_vaddr
    then panic
    else if ltb user_stack_top (seg_end p)
    then panic
    else (load_pages img kern pd_phys file p (segment_flags p) (page_rounds p)
          (p.p_vaddr / 0x1000 * 0x1000)
        >>= λ img'. ok ((if ltb highest (seg_end p) then seg_end p else highest), img'))

-- The loop over the rounds left, from header `i` on.
unfoldable pub load_segments :
    (kern pd_phys : ℕ) → (file : Array ℕ) → (rounds i : ℕ) → ℕ × Image → Outcome (ℕ × Image)
unfolding load_segment phdr_at word_at half_at
load_segments kern pd_phys file zero i st = ok st
load_segments kern pd_phys file (suc n) i st =
    load_segment kern pd_phys file (phdr_at file (word_at file 28 + i * half_at file 42)) st
    >>= load_segments kern pd_phys file n (i + 1)
