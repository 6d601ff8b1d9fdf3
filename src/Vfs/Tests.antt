-- ===== src/Vfs/Tests.antt =====
-- The virtual file system on a driver with a root directory, node 1, in which every name is the file
-- node 2 of ten bytes. The driver's state is the next address of the heap.
use frog_kernel.Base.{
  ℕ, ◌+◌, ◌-◌, ◌<◌, ◌≡◌, ◌⊎◌, inl, inr, min, none, some, [], ◌∷◌, ◌==◌, if◌then◌else◌, arith,
}
use frog_kernel.Base.Int.{ℤ, pos}
use frog_kernel.Misc.Util.{Text}
use frog_kernel.Misc.Util.Text.{IsText}
use frog_kernel.Vfs.{Drivers, Vfs, minus_one, mount_entry, get_file, find_mount, vfs_resolve}
use frog_kernel.Vfs.Calls.{vfs_open, vfs_close, vfs_read, vfs_mount}
use frog_kernel.Vfs.Fds.{get_file-vfs_close}
use frog_kernel.Vfs.Mounts.{Chosen, Attached, find_mount_lem, vfs_mount_lem}
use frog_kernel.Vfs.Walk.{Resolves, vfs_resolve_lem}
use frog_kernel.Vfs.Open.{Opens, vfs_open_lem}
use frog_kernel.Vfs.Files.{Moves, vfs_read_lem}

abbrev drv : Drivers ℕ
drv = record {
  flags = λ w node. if node == 1 then 2 else 1;
  mounted_here = λ w node. 0;
  mount_of = λ w node. none;
  open_op = λ w node. none;
  close_op = λ w node. none;
  read_op = λ w node.
      if node == 2 then some (λ buf len offset w. (pos (min len (10 - offset)), w)) else none;
  write_op = λ w node. none;
  readdir_op = λ w node. none;
  finddir_op = λ w node. if node == 1 then some (λ name w. (2, w)) else none;
  ioctl_op = λ w node. none;
  stat_op = λ w node. none;
  mount = λ driver w. (pos 0, w);
  get_root = λ driver w. (1, w);
  unmount = λ driver. none;
  clear_mounted_here = λ node w. w;
  kmalloc = λ n w. (w, w + n);
  kfree = λ p w. w;
}

-- "/", "/dev" and "/dev/tty0"
abbrev root : Text
root = b'/' ∷ []

abbrev dev : Text
dev = b'/' ∷ b'd' ∷ b'e' ∷ b'v' ∷ []

abbrev tty0 : Text
tty0 = b'/' ∷ b'd' ∷ b'e' ∷ b'v' ∷ b'/' ∷ b't' ∷ b't' ∷ b'y' ∷ b'0' ∷ []

-- "/" and "/dev" are mounted, and a process at 5 runs with descriptor 0 taken.
abbrev vfs : Vfs ℕ
vfs = record {
  world = 0xd0000000;
  mount_table = λ i.
      if i == 0
      then mount_entry root 1 1
      else if i == 1
      then mount_entry dev 2 1
      else mount_entry [] 0 0;
  mount_count = 2;
  tables = λ t fd. if t == 5 then (if fd == 0 then 0xd0001000 else 0) else 0;
  files = λ f. record { vnode = 2; offset = 4; flags = 0; ref_count = 1 };
  curr_process = 5;
}

paths-IsText : (j : ℕ) → j < 2 → IsText (vfs.mount_table j).path
paths-IsText j h = elim (cases j h) [ inl e ↦ rw e (omega arith) | inr e ↦ rw e (omega arith) ]
  where
    cases : (j : ℕ) → j < 2 → (j ≡ 0) ⊎ (j ≡ 1)
    cases j h = omega arith

get_file-vfs_close_example : get_file (vfs_close drv vfs (pos 0)).1 (pos 0) ≡ 0xd0001000
unfolding get_file
get_file-vfs_close_example = get_file-vfs_close drv vfs (pos 0)

find_mount_lem_example : Chosen vfs tty0 (find_mount vfs tty0)
find_mount_lem_example = find_mount_lem vfs tty0 paths-IsText (omega arith)

vfs_mount_lem_example : Attached drv vfs tty0 3 (vfs_mount drv vfs tty0 3)
vfs_mount_lem_example = vfs_mount_lem drv vfs tty0 3

vfs_resolve_lem_example : Resolves drv vfs tty0 (find_mount vfs tty0) (vfs_resolve drv vfs tty0)
vfs_resolve_lem_example = vfs_resolve_lem drv vfs tty0

vfs_open_lem_example :
    (q : ℕ × ℕ) × (vfs_resolve drv vfs tty0 ≡ some q)
    × ((r : ℤ × Vfs ℕ) × (vfs_open drv vfs tty0 0 ≡ some r) × Opens drv vfs 0 q r)
vfs_open_lem_example = vfs_open_lem drv vfs tty0 0 (omega arith)

vfs_read_lem_example :
    ((get_file vfs (pos 0) ≡ 0) × (vfs_read drv vfs (pos 0) 0x1000 100 ≡ (minus_one, vfs)))
    ⊎ Moves drv vfs
        (get_file vfs (pos 0))
        0x1000
        100
        (drv.read_op vfs.world (vfs.files (get_file vfs (pos 0))).vnode)
        (vfs_read drv vfs (pos 0) 0x1000 100)
vfs_read_lem_example = vfs_read_lem drv vfs (pos 0) 0x1000 100
