-- ===== src/Syscall/Files.antt =====
-- The system calls on files of src/userspace/usyscall.c, with the file system behind them.

use frog_kernel.Base.{
  ℕ, ◌+◌, ◌<◌, ◌≤◌, ◌≡◌, ◌≢◌, ◌⊎◌, inl, inr, refl, true, some, length, Bool-cases, ◌^◌, arith, min,
}
use frog_kernel.Base.Int.{ℤ}
use frog_kernel.Misc.Util.{Text, kernel_virt_base}
use frog_kernel.Vfs.{Drivers, Vfs, get_file, max_path, minus_one, vfs_resolve}
use frog_kernel.Vfs.Calls.{vfs_read}
use frog_kernel.Vfs.Files.{Moves, vfs_read_lem}
use frog_kernel.Vfs.Open.{Opens, vfs_open_lem}
use frog_kernel.Syscall.{
  Regs, Memory, Kernel, val_ptr, to_int, vfs_now, failed, answer, sys_open, sys_read,
}
use frog_kernel.Syscall.Pointers.{TextAt, text_at_lem, strnlen_at_lem}

module _ {W : Type 0} (drv : Drivers W) (mem : Memory W) where
  open mem use {load}

  -- If the path in EBX is a text of fewer than 256 characters that ends below the kernel and is not at
  -- NULL, then `sys_open` returns, given a round for each of its characters and one more. It answers
  -- what opening the node gives that the text resolves to for the process that runs, with the flags in
  -- ECX: -1, or the lowest free descriptor of the process, which then names a new file on the node.
  pub sys_open_lem :
      (fuel : ℕ) (r : Regs) (k : Kernel W) (path : Text)
      → TextAt (load k.vfs.world) r.ebx path
      → r.ebx ≢ 0
      → r.ebx + length path + 1 < kernel_virt_base
      → length path < 256
      → length path < fuel
      → (q : ℕ × W) × (vfs_resolve drv (vfs_now k) path ≡ some q)
        × ((a : ℤ × Vfs W) × (sys_open drv mem fuel r k ≡ some (answer r k a))
            × Opens drv (vfs_now k) r.ecx q a)
  unfolding sys_open val_ptr
  sys_open_lem fuel r k path t nz h short f =
      let (q, found, (a, e, o)) = vfs_open_lem drv (vfs_now k) path r.ecx short in
      (
        q,
        found,
        (
          a,
          rw
              (
                first,
                strnlen_at_lem max_path (load k.vfs.world) r.ebx path t (omega arith),
                whole,
                text_at_lem fuel (load k.vfs.world) r.ebx path t f (omega arith),
                e,
              )
              refl,
          o,
        ),
      )
    where
      first : val_ptr r.ebx 1 ≡ true
      first = ground (arith, nz, h)

      whole : val_ptr r.ebx (min max_path (length path)) ≡ true
      whole = ground (arith, nz, h)

  -- A buffer that reaches no address past 2^32 is refused if it is at NULL or reaches the kernel: then
  -- `sys_read` answers -1 and changes nothing. Otherwise it lies below the kernel, and `sys_read` does
  -- what `vfs_read` does for the process that runs: on a descriptor that names no file, -1 and no
  -- change; else the driver reads at the file's offset, which moves forward by what was read.
  pub sys_read_lem :
      (r : Regs) (k : Kernel W)
      → r.ecx + r.edx < 2 ^ 32
      → ((r.ecx ≡ 0) ⊎ (kernel_virt_base ≤ r.ecx + r.edx)) × (sys_read drv mem r k ≡ failed r k)
        ⊎ ((r.ecx ≢ 0)
            × (r.ecx + r.edx < kernel_virt_base)
            × ((q : ℤ × Vfs W) × (sys_read drv mem r k ≡ answer r k q)
                × ((get_file (vfs_now k) (to_int r.ebx) ≡ 0) × (q ≡ (minus_one, vfs_now k))
                    ⊎ Moves drv
                        (vfs_now k)
                        (get_file (vfs_now k) (to_int r.ebx))
                        r.ecx
                        r.edx
                        (drv.read_op k.vfs.world
                          (k.vfs.files (get_file (vfs_now k) (to_int r.ebx))).vnode)
                        q)))
  unfolding sys_read val_ptr
  sys_read_lem r k h = elim (Bool-cases (val_ptr r.ecx r.edx)) [
    | inl good ↦ inr (
      ground (arith, good),
      ground (arith, h, good),
      (
        vfs_read drv (vfs_now k) (to_int r.ebx) r.ecx r.edx,
        rw good refl,
        (vfs_read_lem drv (vfs_now k) (to_int r.ebx) r.ecx r.edx),
      ),
    )
    | inr bad ↦ inl (ground (arith, h, bad), rw bad refl)
  ]
