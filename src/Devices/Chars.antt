-- ===== src/Devices/Chars.antt =====
-- The devices without state, src/devices/null/null.c, zero/zero.c and fb/fb.c: the functions of their
-- tables of operations, on the memory.
pub mod Reads
use frog_kernel.Base.{ℕ, zero, suc, ◌+◌, ◌-◌, ◌*◌, ◌/◌, ◌%◌, ◌^◌, ltb, leb, ◌==◌, if◌then◌else◌}
use frog_kernel.Base.Int.{ℤ, pos, negsuc}
use frog_kernel.Base.Store.{Array, update}
use frog_kernel.Misc.Mem.{memset, memcpy}

-- `ssize_t` from `size_t`
abbrev pub to_ssize : ℕ → ℤ
to_ssize n = if leb (2 ^ 31) n then negsuc (2 ^ 32 - 1 - n) else pos n

unfoldable pub null_read : Array ℕ → (buf len offset : ℕ) → ℤ × Array ℕ
null_read mem buf len offset = (pos 0, mem)

unfoldable pub null_write : Array ℕ → (buf len offset : ℕ) → ℤ × Array ℕ
null_write mem buf len offset = (to_ssize len, mem)

unfoldable pub zero_read : Array ℕ → (buf len offset : ℕ) → ℤ × Array ℕ
zero_read mem buf len offset = (to_ssize len, memset mem buf 0 len)

unfoldable pub zero_write : Array ℕ → (buf len offset : ℕ) → ℤ × Array ℕ
zero_write mem buf len offset = (to_ssize len, mem)

-- `fb_info_t`
pub record FbInfo : Type 0 where
  pub phys_addr : ℕ
  pub virt_addr : ℕ
  pub width : ℕ
  pub height : ℕ
  pub pitch : ℕ
  pub bpp : ℕ

abbrev pub fb_size : FbInfo → ℕ
fb_size fb = fb.pitch * fb.width % 2 ^ 32

-- How much is read or written.
abbrev pub fb_part : FbInfo → (len offset : ℕ) → ℕ
fb_part fb len offset = if ltb len (fb_size fb - offset) then len else fb_size fb - offset

unfoldable pub fb_read : Array ℕ → FbInfo → (buf len offset : ℕ) → ℤ × Array ℕ
fb_read mem fb buf len offset = if leb (fb_size fb) offset then (pos 0, mem) else (
  to_ssize (fb_part fb len offset),
  memcpy mem buf (fb.virt_addr + offset) (fb_part fb len offset),
)

unfoldable pub fb_write : Array ℕ → FbInfo → (buf len offset : ℕ) → ℤ × Array ℕ
fb_write mem fb buf len offset = if leb (fb_size fb) offset then (pos 0, mem) else (
  to_ssize (fb_part fb len offset),
  memcpy mem (fb.virt_addr + offset) buf (fb_part fb len offset),
)

-- `sizeof(fb_info_t)`
abbrev pub fb_info_size : ℕ
fb_info_size = 24

-- `node->private_data` is the address of the record.
unfoldable pub fb_ioctl : Array ℕ → (fb request arg : ℕ) → ℤ × Array ℕ
fb_ioctl mem fb request arg =
    if request == 0x01 then (pos 0, memcpy mem arg fb fb_info_size) else (negsuc 0, mem)
