-- ===== src/Syscall.antt =====
-- The system calls of src/userspace/usyscall.c. A handler takes the registers that the caller has set
-- and the kernel's state, and gives back both. `sys_spawn` is left out.
pub mod Pointers
pub mod Files
pub mod Life
pub mod Table
mod Tests
use mathlib.Core.Option
use frog_kernel.Base.{
  ℕ, zero, suc, ◌+◌, ◌-◌, ◌*◌, ◌/◌, ◌%◌, ◌^◌, Bool, true, false, not, ◌&&◌, ◌||◌, Option, none,
  some, [], ◌∷◌, leb, ◌==◌, if◌then◌else◌,
}
use frog_kernel.Base.Int.{ℤ, pos, negsuc}
use frog_kernel.Base.Store.{Array}
use frog_kernel.Misc.Util.{Text, kernel_virt_base}
use frog_kernel.Vfs.{Drivers, Vfs, max_path}
use frog_kernel.Vfs.Calls.{
  vfs_open, vfs_close, vfs_read, vfs_write, vfs_ioctl, vfs_readdir, vfs_stat, set_world,
}
use frog_kernel.Devices.Clock.{Time}
use frog_kernel.Thread.{Scheduler}
use frog_kernel.Process.{Processes}

-- The registers of `registers_t` that the handlers use.
pub record Regs : Type 0 where
  pub eax : ℕ
  pub ebx : ℕ
  pub ecx : ℕ
  pub edx : ℕ
  pub ebp : ℕ

-- The bytes of memory, which are part of the state `W` that the drivers change.
pub record Memory (W : Type 0) : Type 0 where
  pub load : W → Array ℕ
  pub save : (addr byte : ℕ) → W → W

-- The state that the handlers share. The process that runs is that of the scheduler.
pub record Kernel (W : Type 0) : Type 0 where
  pub vfs : Vfs W
  pub processes : Processes
  pub scheduler : Scheduler
  pub schedule_pending : ℕ
  pub curr_time : Time

unfoldable pub val_ptr : (addr len : ℕ) → Bool
val_ptr addr len =
    not (leb kernel_virt_base addr)
    && not (leb kernel_virt_base ((addr + len) % 2 ^ 32))
    && not (addr == 0)

-- `strnlen` on memory, and the text that a pointer names. `none`: the fuel is used up.
unfoldable pub strnlen_at : Array ℕ → (addr n : ℕ) → ℕ
strnlen_at m addr zero = 0
strnlen_at m addr (suc n) =
    let rest = strnlen_at m ((addr + 1) % 2 ^ 32) n in if m addr == 0 then 0 else suc rest

unfoldable pub text_at : (fuel : ℕ) → Array ℕ → (addr : ℕ) → Option Text
text_at zero m addr = none
text_at (suc f) m addr =
    let rest = text_at f m ((addr + 1) % 2 ^ 32) in
    if m addr == 0 then some [] else Option.map (λ s. m addr ∷ s) rest

-- `(int)x`, and `(uint32_t)x`.
abbrev pub to_int : ℕ → ℤ
to_int x = if leb (2 ^ 31) x then negsuc (2 ^ 32 - 1 - x) else pos x

abbrev pub to_word : ℤ → ℕ
to_word (pos n) = n % 2 ^ 32
to_word (negsuc n) = 2 ^ 32 - 1 - n % 2 ^ 32

-- `regs->eax = x`
abbrev pub set_eax : Regs → ℕ → Regs
set_eax r x = record r { eax = x }

abbrev pub minus_one_word : ℕ
minus_one_word = 0xffffffff

module _ {W : Type 0} where
  -- The file system with the process that runs.
  abbrev pub vfs_now : Kernel W → Vfs W
  vfs_now k = record k.vfs { curr_process = k.scheduler.curr_process }

  abbrev pub failed : Regs → Kernel W → Regs × Kernel W
  failed r k = (set_eax r minus_one_word, k)

  abbrev pub answer : Regs → Kernel W → ℤ × Vfs W → Regs × Kernel W
  answer r k (n, vfs) = (set_eax r (to_word n), record k { vfs = vfs })

module _ {W : Type 0} (drv : Drivers W) (mem : Memory W) where
  open mem use {load, save}

  -- `none`: the fuel of the text is used up.
  unfoldable pub sys_open : (fuel : ℕ) → Regs → Kernel W → Option (Regs × Kernel W)
  sys_open fuel r k =
      let m = load k.vfs.world in
      if not (val_ptr r.ebx 1)
      then some (failed r k)
      else if not (val_ptr r.ebx (strnlen_at m r.ebx max_path))
      then some (failed r k)
      else elim (text_at fuel m r.ebx) [
        | none ↦ none
        | some path ↦ Option.map (answer r k) (vfs_open drv (vfs_now k) path r.ecx)
      ]

  unfoldable pub sys_close : Regs → Kernel W → Regs × Kernel W
  sys_close r k = answer r k (vfs_close drv (vfs_now k) (to_int r.ebx))

  unfoldable pub sys_read : Regs → Kernel W → Regs × Kernel W
  sys_read r k =
      if not (val_ptr r.ecx r.edx)
      then failed r k
      else answer r k (vfs_read drv (vfs_now k) (to_int r.ebx) r.ecx r.edx)

  unfoldable pub sys_write : Regs → Kernel W → Regs × Kernel W
  sys_write r k =
      if not (val_ptr r.ecx r.edx)
      then failed r k
      else answer r k (vfs_write drv (vfs_now k) (to_int r.ebx) r.ecx r.edx)

  unfoldable pub sys_ioctl : Regs → Kernel W → Regs × Kernel W
  sys_ioctl r k =
      if not (r.edx == 0) && not (val_ptr r.edx 1)
      then failed r k
      else answer r k (vfs_ioctl drv (vfs_now k) (to_int r.ebx) r.ecx r.edx)

  unfoldable pub sys_readdir : Regs → Kernel W → Regs × Kernel W
  sys_readdir r k =
      if not (val_ptr r.edx r.ebp)
      then failed r k
      else answer r k (vfs_readdir drv (vfs_now k) (to_int r.ebx) r.ecx r.edx r.ebp)

  -- `sizeof(struct stat)`
  abbrev pub stat_size : ℕ
  stat_size = 64

  unfoldable pub sys_fstat : Regs → Kernel W → Regs × Kernel W
  sys_fstat r k =
      if not (val_ptr r.ecx stat_size)
      then failed r k
      else answer r k (vfs_stat drv (vfs_now k) (to_int r.ebx) r.ecx)

  -- The fields of `rtc_time_t`, five bytes and, behind a byte of padding, the year.
  unfoldable pub save_time : (addr : ℕ) → Time → W → W
  save_time a t w = save (a + 7) (t.year / 0x100 % 0x100) (
      save (a + 6) (t.year % 0x100) (
        save (a + 4) t.month (
          save (a + 3) t.day (save (a + 2) t.hours (save (a + 1) t.minutes (save a t.seconds w))))))

  -- `sizeof(rtc_time_t)`
  abbrev pub time_size : ℕ
  time_size = 8

  unfoldable pub sys_time : Regs → Kernel W → Regs × Kernel W
  unfolding save_time
  sys_time r k = if not (val_ptr r.ebx time_size) then failed r k else (
    set_eax r 0,
    record k { vfs = set_world k.vfs (save_time r.ebx k.curr_time k.vfs.world) },
  )

module _ {W : Type 0} where
  unfoldable pub sys_getpid : Regs → Kernel W → Regs × Kernel W
  sys_getpid r k =
      let p = k.scheduler.curr_process in
      if p == 0 then failed r k else (set_eax r (k.processes.procs p).pid, k)

  unfoldable pub sys_getppid : Regs → Kernel W → Regs × Kernel W
  sys_getppid r k =
      let p = k.scheduler.curr_process in
      let parent = (k.processes.procs p).parent in
      if p == 0
      then failed r k
      else if parent == 0
      then failed r k
      else (set_eax r (k.processes.procs parent).pid, k)
