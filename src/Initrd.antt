-- ===== src/Initrd.antt =====
-- The initial RAM disk, src/initrd/initrd.c and initrd.h: a tar archive in memory. `mem` gives the byte
-- at an address, and a header lies at the address of its first byte.
pub mod Archive
pub mod Found
pub mod Fs
mod Tests
use frog_kernel.Base.{
  ℕ, zero, suc, ◌+◌, ◌-◌, ◌*◌, ◌/◌, ◌%◌, ◌^◌, Bool, true, false, ◌&&◌, ◌||◌, not, Option, none,
  some, List, [], ◌∷◌, ◌++◌, ltb, leb, ◌==◌, if◌then◌else◌, take, length,
}
use frog_kernel.Base.Int.{is_zero}
use frog_kernel.Base.Store.{Array, Outcome, ok, panic, ◌>>=◌}
use frog_kernel.Memory.Pmm.{page_size}
use frog_kernel.Memory.Tags.{tag_type_module, find_tag}
use frog_kernel.Memory.Heap.Pages.{kalloc_pages}
use frog_kernel.Memory.Paging.{Space}
use frog_kernel.Misc.Util.{Text, strcmp}
use frog_kernel.Misc.Mem.{memcpy}

-- The offsets in `ustar_header_t` of the fields that are read.
abbrev pub at_size : ℕ
at_size = 124

abbrev pub at_typeflag : ℕ
at_typeflag = 156

abbrev pub at_magic : ℕ
at_magic = 257

abbrev pub at_prefix : ℕ
at_prefix = 345

-- `initrd_t`
pub record Initrd : Type 0 where
  pub addr : ℕ
  pub phys_addr : ℕ
  pub size : ℕ

-- `initrd_file_t`
pub record File : Type 0 where
  pub name : ℕ
  pub data_at : ℕ
  pub size : ℕ
  pub typeflag : ℕ

abbrev pub no_file : File
no_file = record { name = 0; data_at = 0; size = 0; typeflag = 0 }

-- The loop of `oct2int` over the characters left.
unfoldable pub oct2int_from : Array ℕ → (str len val : ℕ) → ℕ
oct2int_from mem str zero val = val
oct2int_from mem str (suc n) val =
    let rest = oct2int_from mem (str + 1) n ((val * 8 + (mem str - b'0')) % 2 ^ 32) in
    if ltb (mem str) b'0' || ltb b'7' (mem str) then val else rest

unfoldable pub oct2int : Array ℕ → (str len : ℕ) → ℕ
unfolding oct2int_from
oct2int mem str len = oct2int_from mem str len 0

-- The bytes from an address up to a NUL, at most `n` of them: what `strnlen` counts and `memcpy` and
-- `strncpy` copy.
unfoldable pub bytes_at : Array ℕ → (a n : ℕ) → Text
bytes_at mem a zero = []
bytes_at mem a (suc n) =
    let rest = bytes_at mem (a + 1) n in if mem a == 0 then [] else mem a ∷ rest

-- `if (total > 1 && fullpath[total - 1] == '/')`: the last character goes if it is a slash.
unfoldable pub drop_slash : Text → Text
drop_slash [] = []
drop_slash (c ∷ []) = if c == b'/' then [] else c ∷ []
drop_slash (c ∷ d ∷ s) = c ∷ drop_slash (d ∷ s)

abbrev pub strip : Text → Text
strip [] = []
strip (c ∷ []) = c ∷ []
strip (c ∷ d ∷ s) = c ∷ drop_slash (d ∷ s)

-- What is copied to `fullpath`. Without a prefix the name is copied from a field of 100 bytes, but up
-- to 255 bytes.
unfoldable pub raw_path : Array ℕ → (hdr : ℕ) → Text
unfolding bytes_at
raw_path mem hdr =
    if mem (hdr + at_prefix) == 0
    then bytes_at mem hdr 255
    else bytes_at mem (hdr + at_prefix) 155 ++ b'/' ∷ bytes_at mem hdr 100

unfoldable pub full_path : Array ℕ → (hdr : ℕ) → Text
unfolding raw_path drop_slash
full_path mem hdr = strip (raw_path mem hdr)

-- `char fullpath[256]` has no room for the NUL, which is written behind it.
unfoldable pub overruns : Array ℕ → (hdr : ℕ) → Bool
unfolding raw_path
overruns mem hdr = leb 256 (length (raw_path mem hdr))

-- `memcmp(hdr->magic, "ustar", 5) == 0`
unfoldable pub is_ustar : Array ℕ → (a : ℕ) → Bool
is_ustar mem a =
    mem a == b'u'
    && mem (a + 1) == b's'
    && mem (a + 2) == b't'
    && mem (a + 3) == b'a'
    && mem (a + 4) == b'r'

-- The loops go on while a header fits and is one.
unfoldable pub is_header : Array ℕ → (end ptr : ℕ) → Bool
unfolding is_ustar
is_header mem end ptr = leb (ptr + 512) end && not (mem ptr == 0) && is_ustar mem (ptr + at_magic)

unfoldable pub file_size : Array ℕ → (hdr : ℕ) → ℕ
file_size mem hdr = oct2int mem (hdr + at_size) 12

-- `(ptr + 512) + ((filesize + 511) & ~511)`
unfoldable pub next_header : Array ℕ → (ptr : ℕ) → ℕ
unfolding file_size
next_header mem ptr = (ptr + 512 + (file_size mem ptr + 511) % 2 ^ 32 / 512 * 512) % 2 ^ 32

-- The walk to the first header with a path, or to 0. `none`: the fuel is used up, or a path does not
-- fit into `fullpath`.
unfoldable pub find_path : Array ℕ → (end : ℕ) → Text → (fuel ptr : ℕ) → Option ℕ
find_path mem end path zero ptr = none
find_path mem end path (suc f) ptr =
    let later = find_path mem end path f (next_header mem ptr) in
    if not (is_header mem end ptr)
    then some 0
    else if overruns mem ptr
    then none
    else if is_zero (strcmp (full_path mem ptr) path)
    then some ptr
    else later

unfoldable pub file_at : Array ℕ → (hdr : ℕ) → File
file_at mem hdr = if hdr == 0 then no_file else record {
  name = hdr;
  data_at = hdr + 512;
  size = file_size mem hdr;
  typeflag = mem (hdr + at_typeflag);
}

unfoldable pub initrd_lookup : (fuel : ℕ) → Array ℕ → Initrd → Text → Option File
initrd_lookup fuel mem d filepath = elim (find_path mem (d.addr + d.size) filepath fuel d.addr) [
  | none ↦ none
  | some hdr ↦ some (file_at mem hdr)
]

-- `initrd_init` on the tag that was found, or a panic if there is none.
abbrev pub module_at : (word : Array ℕ) → (tag : ℕ) → Initrd → Outcome Initrd
module_at word tag d =
    if tag == 0
    then panic
    else ok (record d {
      phys_addr = word (tag + 8);
      size = (word (tag + 12) + 2 ^ 32 - word (tag + 8)) % 2 ^ 32;
    })

-- `word` gives the word at an address of the loader's data. `none`: the fuel is used up.
unfoldable pub initrd_init :
    (word : Array ℕ) → (fuel mb2_info : ℕ) → Initrd → Option (Outcome Initrd)
initrd_init word fuel mb2_info d = elim (find_tag word tag_type_module fuel (mb2_info + 8)) [
  | none ↦ none
  | some tag ↦ some (module_at word tag d)
]

-- The archive is copied behind the kernel: the memory, the disk, the new `large_alloc_base` and the
-- address space.
unfoldable pub initrd_remap :
    (dir base : ℕ) → Array ℕ → Initrd → Space → Outcome (Array ℕ × Initrd × ℕ × Space)
initrd_remap dir base mem d s =
    kalloc_pages dir base ((d.size + page_size - 1) % 2 ^ 32 / page_size) s
    >>= λ (addr, next, space).
        ok (memcpy mem addr d.phys_addr d.size, record d { addr = addr }, next, space)
