-- ===== src/Vfs.antt =====
-- The virtual file system, src/vfs/vfs.c, vfs.h and fdtable.h. File systems and the heap are behind
-- an interface: what a vnode's table of operations does to the rest of the kernel's state, `W`, is
-- the driver's affair. A pointer is a number, NULL is 0.
pub mod Calls
pub mod Fds
pub mod Mounts
pub mod Resolve
pub mod Walk
pub mod Open
pub mod Files
mod Tests
use mathlib.Core.Option
use frog_kernel.Base.{
  ℕ, zero, suc, ◌+◌, ◌-◌, ◌*◌, ◌/◌, ◌%◌, ◌^◌, Bool, true, false, ◌&&◌, ◌||◌, not, Option, none,
  some, List, [], ◌∷◌, ◌++◌, ltb, leb, ◌==◌, if◌then◌else◌, drop, take, length,
}
use frog_kernel.Base.Store.{Array, update}
use frog_kernel.Base.Int.{ℤ, pos, negsuc, is_zero, is_neg}
use frog_kernel.Misc.Util.{Text, strlen, strncmp}

abbrev pub max_mounts : ℕ
max_mounts = 64

abbrev pub max_path : ℕ
max_path = 256

abbrev pub max_fds : ℕ
max_fds = 256

abbrev pub vfs_directory : ℕ
vfs_directory = 0x02

abbrev pub vfs_mountpt : ℕ
vfs_mountpt = 0x40

-- The operations of `vnode_ops_t`, NULL where a table lacks one, the fields of a vnode that the code
-- reads, `fs_driver_t`, and the heap. A buffer is named by its address, and what it holds is part of
-- `W`.
pub record Drivers (W : Type 0) : Type 0 where
  pub flags : W → ℕ → ℕ
  pub mounted_here : W → ℕ → ℕ
  pub mount_of : W → ℕ → Option ℕ
  pub open_op : W → ℕ → Option (ℕ → W → ℤ × W)
  pub close_op : W → ℕ → Option (W → ℤ × W)
  pub read_op : W → ℕ → Option ((buf len offset : ℕ) → W → ℤ × W)
  pub write_op : W → ℕ → Option ((buf len offset : ℕ) → W → ℤ × W)
  pub readdir_op : W → ℕ → Option ((index name_out name_max : ℕ) → W → ℤ × W)
  pub finddir_op : W → ℕ → Option (Text → W → ℕ × W)
  pub ioctl_op : W → ℕ → Option ((request arg : ℕ) → W → ℤ × W)
  pub stat_op : W → ℕ → Option ((st : ℕ) → W → ℤ × W)
  pub mount : ℕ → W → ℤ × W
  pub get_root : ℕ → W → ℕ × W
  pub unmount : ℕ → Option (W → W)
  pub clear_mounted_here : ℕ → W → W
  pub kmalloc : ℕ → W → ℕ × W
  pub kfree : ℕ → W → W

-- `file_t`
pub record File : Type 0 where
  pub vnode : ℕ
  pub offset : ℕ
  pub flags : ℕ
  pub ref_count : ℕ

-- `fs_mount_t`
pub record Mount : Type 0 where
  pub path : Text
  pub driver : ℕ
  pub root : ℕ

-- `tables 0` is `kernel_fd_table`, and `tables p` the table of the process at `p`.
pub record Vfs (W : Type 0) : Type 0 where
  pub world : W
  pub mount_table : Array Mount
  pub mount_count : ℕ
  pub tables : ℕ → Array ℕ
  pub files : Array File
  pub curr_process : ℕ

abbrev pub minus_one : ℤ
minus_one = negsuc 0

-- `file->offset += n` on size_t, made only for `n > 0`.
abbrev pub advance : ℕ → ℤ → ℕ
advance offset (pos n) = (offset + n) % 2 ^ 32
advance offset (negsuc n) = offset

-- The loop of `alloc_fd` over the rounds left.
unfoldable pub find_slot : Array ℕ → (rounds i : ℕ) → Option ℕ
find_slot fds zero i = none
find_slot fds (suc n) i = elim (fds i == 0) [ true ↦ some i | false ↦ find_slot fds n (i + 1) ]

module _ {W : Type 0} where
  -- The key of `active_fd_table`.
  abbrev pub active : Vfs W → ℕ
  active s = s.curr_process

  unfoldable pub set_entry : Vfs W → (table fd file : ℕ) → Vfs W
  set_entry s t fd file = record s {
    tables = λ u. if u == t then update (s.tables t) fd file else s.tables u;
  }

  unfoldable pub alloc_fd : Vfs W → (file : ℕ) → ℤ × Vfs W
  unfolding set_entry
  alloc_fd s file = elim (find_slot (s.tables (active s)) max_fds 0) [
    | none ↦ (minus_one, s)
    | some i ↦ (pos i, set_entry s (active s) i file)
  ]

  unfoldable pub get_file : Vfs W → ℤ → ℕ
  get_file s (negsuc n) = 0
  get_file s (pos fd) = if leb max_fds fd then 0 else s.tables (active s) fd

  -- The loop of `find_mount`: the best match so far and its length.
  unfoldable pub find_mount_from :
      Vfs W → Text → (rounds i : ℕ) → (best : Option ℕ) → (best_len : ℕ) → Option ℕ
  find_mount_from s path zero i best best_len = best
  find_mount_from s path (suc n) i best best_len =
      let mlen = strlen (s.mount_table i).path in
      let better = is_zero (strncmp (s.mount_table i).path path mlen) && ltb best_len mlen in
      find_mount_from s path n (i + 1) (if better then some i else best)
        (if better then mlen else best_len)

  unfoldable pub find_mount : Vfs W → Text → Option ℕ
  unfolding find_mount_from
  find_mount s path = find_mount_from s path s.mount_count 0 none 0

-- `*rel == '/'` is skipped, and what comes before the next one is read, up to the end of `component`
-- or past it.
unfoldable pub skip_slashes : Text → Text
skip_slashes [] = []
skip_slashes (c ∷ s) = elim (c == b'/') [ true ↦ skip_slashes s | false ↦ c ∷ s ]

unfoldable pub take_component : Text → Text × Text
take_component [] = ([], [])
take_component (c ∷ s) = elim (c == b'/') [
  | true ↦ ([], c ∷ s)
  | false ↦ (c ∷ (take_component s).0, (take_component s).1)
]

abbrev pub has_mountpt : ℕ → Bool
has_mountpt flags = flags / vfs_mountpt % 2 == 1

abbrev pub has_directory : ℕ → Bool
has_directory flags = flags / vfs_directory % 2 == 1

abbrev mount_entry : Text → ℕ → ℕ → Mount
mount_entry p d r = record { path = p; driver = d; root = r }

module _ {W : Type 0} (drv : Drivers W) where
  open drv use {mounted_here, finddir_op}

  -- One round of the loop of `vfs_resolve`: the child of a node, or NULL.
  unfoldable pub finddir : (node : ℕ) → Text → W → ℕ × W
  finddir node name w = elim (finddir_op w node) [ none ↦ (0, w) | some f ↦ f name w ]

  unfoldable pub lookup_child : (node : ℕ) → (component : Text) → W → ℕ × W
  unfolding finddir
  lookup_child node component w =
      if not (has_directory (drv.flags w node) || has_mountpt (drv.flags w node))
      then (0, w)
      else finddir (if mounted_here w node == 0 then node else mounted_here w node) component w

  -- A round of the loop behind the slashes: the step to a child, after which `again` goes on. `none`:
  -- `char component[MAX_PATH]` has no room for the name and its NUL, and the code writes behind it.
  unfoldable pub resolve_child :
      (again : ℕ → Text → W → Option (ℕ × W)) → (node : ℕ) → Text × Text → W → Option (ℕ × W)
  resolve_child again node (component, rest) w =
      let (child, w') = lookup_child node component w in
      elim (leb max_path (length component)) [
        | true ↦ none
        | false ↦ elim (child == 0) [ true ↦ some (0, w') | false ↦ again child rest w' ]
      ]

  unfoldable pub resolve_round :
      (again : ℕ → Text → W → Option (ℕ × W)) → (node : ℕ) → Text → W → Option (ℕ × W)
  resolve_round again node [] w = some (node, w)
  resolve_round again node (c ∷ s) w = resolve_child again node (take_component (c ∷ s)) w

  -- The loop. `none`: the fuel is used up, or a name is too long.
  unfoldable pub resolve_loop : (fuel node : ℕ) → Text → W → Option (ℕ × W)
  unfolding resolve_round
  resolve_loop zero node rel w = none
  resolve_loop (suc f) node rel w = resolve_round (resolve_loop f) node (skip_slashes rel) w

  -- What follows the loop.
  unfoldable pub cross_mount : ℕ × W → ℕ × W
  cross_mount (node, w) =
      if not (node == 0) && has_mountpt (drv.flags w node) && not (mounted_here w node == 0)
      then (mounted_here w node, w)
      else (node, w)

  -- The walk from the mount that was found. A round for each character of the path, and one more,
  -- are enough.
  unfoldable pub resolve_from : Vfs W → Text → Option ℕ → Option (ℕ × W)
  unfolding resolve_loop cross_mount
  resolve_from s path none = some (0, s.world)
  resolve_from s path (some i) =
      if (s.mount_table i).root == 0
      then some (0, s.world)
      else Option.map cross_mount (
          resolve_loop (suc (length path)) (s.mount_table i).root
            (drop (strlen (s.mount_table i).path) path) s.world)

  unfoldable pub vfs_resolve : Vfs W → Text → Option (ℕ × W)
  vfs_resolve s path = resolve_from s path (find_mount s path)
