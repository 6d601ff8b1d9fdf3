-- ===== src/Vfs/Fds.antt =====
-- File descriptors of src/vfs/vfs.c: `alloc_fd` and `vfs_close`.
use frog_kernel.Base.{
  ℕ, zero, suc, ◌+◌, ◌<◌, ◌≤◌, ◌≡◌, ◌≢◌, refl, false, Option, none, some, ◌==◌, arith, Bool-cases,
  inl, inr, if◌then◌else◌,
}
use frog_kernel.Base.Store.{Array}
use frog_kernel.Base.Int.{ℤ, pos, negsuc}
use frog_kernel.Vfs.{Drivers, Vfs, max_fds, minus_one, find_slot, set_entry, alloc_fd, get_file}
use frog_kernel.Vfs.Calls.{release, vfs_close}

Slot : Array ℕ → (n i : ℕ) → Option ℕ → Type 0
Slot fds n i none = (j : ℕ) → i ≤ j → j < i + n → fds j ≢ 0
Slot fds n i (some k) = (i ≤ k) × (k < i + n) × (fds k ≡ 0) × ((j : ℕ) → i ≤ j → j < k → fds j ≢ 0)

Slot-cons :
    (fds : Array ℕ) (n i : ℕ) (o : Option ℕ)
    → fds i ≢ 0
    → Slot fds n (i + 1) o
    → Slot fds (suc n) i o
unfolding Slot
Slot-cons fds n i none ne all = λ j h k. ground (arith, all j)
Slot-cons fds n i (some k) ne (lo, hi, free, all) =
    (omega arith, omega arith, free, λ j h l. ground (arith, all j))

find_slot-Slot : (fds : Array ℕ) (n i : ℕ) → Slot fds n i (find_slot fds n i)
unfolding find_slot Slot
find_slot-Slot fds zero i = λ j h k. absurd (omega arith)
find_slot-Slot fds (suc n) i = elim (Bool-cases (fds i == 0)) [
  | inl free ↦
      rw (free, Slot) (omega arith, omega arith, ground arith, λ j h k. absurd (omega arith))
  | inr taken ↦
      rw (taken, Slot)
        (Slot-cons fds n i (find_slot fds n (i + 1)) (ground arith) (find_slot-Slot fds n (i + 1)))
]

module _ {W : Type 0} where
  -- The two outcomes of `alloc_fd`.
  abbrev pub Opened : Vfs W → (file : ℕ) → ℤ × Vfs W → Type 0
  Opened s file (negsuc n, s') = (s' ≡ s) × ((j : ℕ) → j < max_fds → s.tables s.curr_process j ≢ 0)
  Opened s file (pos fd, s') =
      (fd < max_fds)
      × (s.tables s.curr_process fd ≡ 0)
      × ((j : ℕ) → j < fd → s.tables s.curr_process j ≢ 0)
      × (get_file s' (pos fd) ≡ file)
      × ((t j : ℕ) → (t == s.curr_process) ≡ false → s'.tables t j ≡ s.tables t j)
      × ((j : ℕ) → j ≢ fd → s'.tables s.curr_process j ≡ s.tables s.curr_process j)
      × (s'.files ≡ s.files)
      × (s'.world ≡ s.world)

  keep_fd-Opened :
      (s : Vfs W) (file : ℕ) (o : Option ℕ)
      → Slot (s.tables s.curr_process) max_fds 0 o
      → Opened s file
          (elim o [ none ↦ (minus_one, s) | some i ↦ (pos i, set_entry s s.curr_process i file) ])
  unfolding Slot set_entry get_file
  keep_fd-Opened s file none all = (refl, λ j h. all j (omega arith) (omega arith))
  keep_fd-Opened s file (some i) (lo, hi, free, all) = (
    omega arith,
    free,
    λ j h. all j (omega arith) h,
    ground arith,
    λ t j ne. ground arith,
    λ j ne. ground arith,
    refl,
    refl,
  )

  -- `alloc_fd` fails, and changes nothing, only if all 256 descriptors of the active table are taken.
  -- Otherwise it returns the lowest free descriptor, puts the file there, and changes no other entry
  -- of any table.
  pub alloc_fd_lem : (s : Vfs W) (file : ℕ) → Opened s file (alloc_fd s file)
  unfolding alloc_fd
  alloc_fd_lem s file =
      keep_fd-Opened s file (find_slot (s.tables s.curr_process) max_fds 0)
        (find_slot-Slot (s.tables s.curr_process) max_fds 0)

module _ {W : Type 0} (drv : Drivers W) where
  -- After `vfs_close` a descriptor of the kernel's own table names no file. A descriptor of a process
  -- still names the file that it named before.
  pub get_file-vfs_close :
      (s : Vfs W) (fd : ℤ)
      → get_file (vfs_close drv s fd).1 fd ≡ (if s.curr_process == 0 then 0 else get_file s fd)
  unfolding vfs_close get_file release
  get_file-vfs_close s (negsuc n) = ground arith
  get_file-vfs_close s (pos fd) = ground arith
