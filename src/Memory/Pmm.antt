-- ===== src/Memory/Pmm.antt =====
-- The physical memory manager, src/memory/pmm.c and pmm.h. The bitmap is a stretch of memory from
-- `pmm_bitmap` on, so a write past its end is a write to the memory behind it.
pub mod Bits
pub mod Frames
pub mod Boot
pub mod Reserved
pub mod Init
mod Tests
use frog_kernel.Base.{
  ℕ, zero, suc, ◌+◌, ◌-◌, ◌*◌, ◌/◌, ◌%◌, ◌^◌, ◌≡◌, Bool, not, Option, none, some, List, [], ◌∷◌,
  bit_and, bit_or, ltb, leb, ◌==◌, if◌then◌else◌, true, false,
}
use frog_kernel.Base.Store.{Array, update, Outcome, ok, panic, ◌>>=◌}

abbrev pub page_size : ℕ
page_size = 0x1000

-- BIT_SET, BIT_CLEAR and BIT_TEST. `~(1 << k)` is cut to the byte that it is stored in.
unfoldable pub bit_set : Array ℕ → ℕ → Array ℕ
bit_set map bit = update map (bit / 8) (bit_or (map (bit / 8)) (2 ^ (bit % 8)))

unfoldable pub bit_clear : Array ℕ → ℕ → Array ℕ
bit_clear map bit = update map (bit / 8) (bit_and (map (bit / 8)) (255 - 2 ^ (bit % 8)))

unfoldable pub bit_test : Array ℕ → ℕ → ℕ
bit_test map bit = bit_and (map (bit / 8)) (2 ^ (bit % 8))

pub record Pmm : Type 0 where
  pub bitmap : Array ℕ
  pub total_pages : ℕ
  pub bitmap_addr : ℕ
  pub bitmap_size : ℕ

abbrev pub addr_to_page : ℕ → ℕ
addr_to_page addr = addr / page_size

-- `(len + PAGE_SIZE - 1) / PAGE_SIZE` on uint32_t
abbrev pub page_count : ℕ → ℕ
page_count len = (len + page_size - 1) % 2 ^ 32 / page_size

-- The loops of `pmm_mark_used` and `pmm_mark_free` over the rounds left.
pub set_from : Array ℕ → (page count : ℕ) → Array ℕ
set_from map page zero = map
set_from map page (suc n) = set_from (bit_set map page) (page + 1) n

pub clear_from : Array ℕ → (page count : ℕ) → Array ℕ
clear_from map page zero = map
clear_from map page (suc n) = clear_from (bit_clear map page) (page + 1) n

unfoldable pub mark_used : Array ℕ → (addr len : ℕ) → Array ℕ
unfolding set_from
mark_used map addr len = set_from map (addr_to_page addr) (page_count len)

unfoldable pub mark_free : Array ℕ → (addr len : ℕ) → Array ℕ
unfolding clear_from
mark_free map addr len = clear_from map (addr_to_page addr) (page_count len)

unfoldable pub is_free : Pmm → ℕ → Bool
unfolding bit_test
is_free p addr = bit_test p.bitmap (addr_to_page addr) == 0

-- The search of `pmm_alloc_frame` from page `i` over the rounds left.
pub find_free : Array ℕ → (rounds i : ℕ) → Option ℕ
find_free map zero i = none
find_free map (suc n) i = elim (bit_test map i == 0) [
  | true ↦ some i
  | false ↦ find_free map n (i + 1)
]

unfoldable pub alloc_frame : Pmm → Outcome (ℕ × Pmm)
alloc_frame p = elim (find_free p.bitmap (p.total_pages - 1) 1) [
  | none ↦ panic
  | some i ↦ ok (i * page_size % 2 ^ 32, record p { bitmap = bit_set p.bitmap i })
]

unfoldable pub free_frame : Pmm → ℕ → Outcome Pmm
free_frame p addr =
    if addr == 0
    then panic
    else if not (addr % 0x1000 == 0)
    then panic
    else if leb p.total_pages (addr_to_page addr)
    then panic
    else if not (bit_test p.bitmap (addr_to_page addr) == 0)
    then panic
    else ok (record p { bitmap = bit_clear p.bitmap (addr_to_page addr) })
