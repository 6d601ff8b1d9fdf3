-- ===== src/Devices/Register.antt =====
-- The registration of the devices without state: `fb_register`, `null_init` and `zero_init` of
-- src/devices. `ops` is the address of the table of operations.
use frog_kernel.Base.{ℕ, [], ◌∷◌}
use frog_kernel.Base.Int.{ℤ}
use frog_kernel.Base.Store.{Array, update}
use frog_kernel.Devfs.{Devfs, devfs_register}
use frog_kernel.Devices.Chars.{FbInfo}

abbrev pub vfs_chardev : ℕ
vfs_chardev = 0x04

unfoldable pub null_init : Devfs → (ops : ℕ) → ℤ × Devfs
null_init d ops = devfs_register d (b'n' ∷ b'u' ∷ b'l' ∷ b'l' ∷ []) ops 0 vfs_chardev

unfoldable pub zero_init : Devfs → (ops : ℕ) → ℤ × Devfs
zero_init d ops = devfs_register d (b'z' ∷ b'e' ∷ b'r' ∷ b'o' ∷ []) ops 0 vfs_chardev

-- `fb` is what `kmalloc` returned; the records by their address.
unfoldable pub fb_register :
    Devfs → Array FbInfo → (ops fb phys virt w h pitch bpp : ℕ) → Array FbInfo × (ℤ × Devfs)
fb_register d infos ops fb phys virt w h pitch bpp = (
  update infos fb (record {
    phys_addr = phys;
    virt_addr = virt;
    width = w;
    height = h;
    pitch = pitch;
    bpp = bpp;
  }),
  devfs_register d (b'f' ∷ b'b' ∷ b'0' ∷ []) ops fb vfs_chardev,
)
