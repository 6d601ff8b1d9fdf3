-- ===== src/Memory/Paging.antt =====
-- Paging, src/memory/paging.c and paging.h. Physical memory is a function from the number of a page
-- frame and the index of a word in it. A directory or table is reached through the recursive slot,
-- so a table's words are those of the frame that the directory's entry names. Flushing the TLB
-- (`invlpg`, a write to `cr3`) has no counterpart: the walk always reads memory.
pub mod Entries
pub mod Walk
pub mod Map
pub mod Unmap
pub mod Write
mod Tests
use frog_kernel.Base.{
  ℕ, zero, suc, ◌+◌, ◌-◌, ◌*◌, ◌/◌, ◌%◌, ◌^◌, Bool, true, false, not, ◌&&◌, Option, none, some,
  bit_or, ltb, ◌==◌, if◌then◌else◌,
}
use frog_kernel.Base.Store.{Array, update, Outcome, ok, panic, ◌>>=◌}
use frog_kernel.Memory.Pmm.{Pmm, alloc_frame, free_frame}

abbrev pub page_present : ℕ
page_present = 0x1

abbrev pub page_rw : ℕ
page_rw = 0x2

abbrev pub page_user : ℕ
page_user = 0x4

abbrev pub recursive_slot : ℕ
recursive_slot = 1023

abbrev pub Frames : Type 0
Frames = ℕ → Array ℕ

pub record Space : Type 0 where
  pub frames : Frames
  pub pmm : Pmm

-- A store of a word, and `memset(page, 0, PAGE_SIZE)`.
unfoldable pub store : Frames → (frame index value : ℕ) → Frames
store m f i v g = if g == f then update (m f) i v else m g

unfoldable pub clear_page : Frames → ℕ → Frames
clear_page m f g = if g == f then (λ i. if ltb i 0x400 then 0 else m f i) else m g

-- `x & PAGE_PRESENT` and `x & PAGE_USER`.
abbrev pub is_present : ℕ → Bool
is_present e = e % 2 == 1

abbrev pub is_user : ℕ → Bool
is_user flags = flags / 4 % 2 == 1

-- `base | flags` for flags below 0x1000, which touch the low twelve bits only.
unfoldable pub or_flags : ℕ → ℕ → ℕ
or_flags base flags = base / 0x1000 * 0x1000 + bit_or (base % 0x1000) flags

-- `(phys & ~0xfff) | (flags & 0xfff) | PAGE_PRESENT`
unfoldable pub entry : ℕ → ℕ → ℕ
entry phys flags = phys / 0x1000 * 0x1000 + bit_or (flags % 0x1000) page_present

-- The frame that an entry names, `e & ~0xfff`, by its number.
abbrev pub frame_of : ℕ → ℕ
frame_of e = e / 0x1000

abbrev pub pd_index : ℕ → ℕ
pd_index virt = virt / 2 ^ 22

abbrev pub pt_index : ℕ → ℕ
pt_index virt = virt / 2 ^ 12 % 0x400

abbrev pub pd_flags : ℕ → ℕ
pd_flags flags = if is_user flags then 0x7 else 0x3

-- A fresh page table for slot `pdi` of directory `dir`, in the frame that was allocated.
unfoldable pub new_table : Space → (dir pdi flags : ℕ) → ℕ × Pmm → Outcome Space
new_table s dir pdi flags (pt_phys, pmm') =
    if pt_phys == 0
    then panic
    else let named = store s.frames dir pdi (or_flags pt_phys (pd_flags flags)) in
      ok (record { frames = clear_page named (frame_of (named dir pdi)); pmm = pmm' })

-- The first half of `map_page`: a page table, if the slot has none.
unfoldable pub ensure_table : Space → (dir pdi flags : ℕ) → Outcome Space
ensure_table s dir pdi flags =
    if is_present (s.frames dir pdi)
    then ok s
    else (alloc_frame s.pmm >>= new_table s dir pdi flags)

-- `dir` is the frame of the directory in `cr3`.
unfoldable pub map_page : Space → (dir phys virt flags : ℕ) → Outcome Space
map_page s dir phys virt flags = ensure_table s dir (pd_index virt) flags >>= λ t. ok (record t {
  frames =
      store t.frames (frame_of (t.frames dir (pd_index virt))) (pt_index virt) (entry phys flags);
})

-- The scan for an entry that is present, over the rounds left.
unfoldable pub none_present : Array ℕ → (rounds i : ℕ) → Bool
none_present pt zero i = true
none_present pt (suc n) i = elim (is_present (pt i)) [
  | true ↦ false
  | false ↦ none_present pt n (i + 1)
]

-- What follows the write of a zero entry: an empty table is unlinked and its frame freed.
unfoldable pub release_table : Space → (dir pdi : ℕ) → Outcome Space
unfolding none_present
release_table s dir pdi =
    if none_present (s.frames (frame_of (s.frames dir pdi))) 1024 0
    then (free_frame s.pmm (frame_of (s.frames dir pdi) * 0x1000) >>= λ pmm'.
        ok (record { frames = store s.frames dir pdi 0; pmm = pmm' }))
    else ok s

unfoldable pub unmap_page : Space → (dir virt : ℕ) → Outcome Space
unmap_page s dir virt =
    let pdi = pd_index virt in
    let table = frame_of (s.frames dir pdi) in
    if not (is_present (s.frames dir pdi))
    then ok s
    else if not (is_present (s.frames table (pt_index virt)))
    then ok s
    else release_table (record s { frames = store s.frames table (pt_index virt) 0 }) dir pdi

-- `paging_init`: the last slot of the directory names the directory itself.
unfoldable pub paging_init : Space → (kernel_pd_phys : ℕ) → Space
paging_init s kernel_pd_phys = record s {
  frames = store s.frames (frame_of kernel_pd_phys) recursive_slot (or_flags kernel_pd_phys 0x3);
}
