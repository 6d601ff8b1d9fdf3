-- ===== src/Vfs/Calls.antt =====
-- The entry points of src/vfs/vfs.c.
use mathlib.Core.Option
use frog_kernel.Base.{
  ℕ, zero, suc, ◌+◌, ◌-◌, ◌%◌, ◌^◌, Bool, true, false, ◌&&◌, not, Option, none, some, [], ltb, leb,
  ◌==◌, if◌then◌else◌, take,
}
use frog_kernel.Base.Store.{Array, update}
use frog_kernel.Base.Int.{ℤ, pos, negsuc, is_zero, is_neg}
use frog_kernel.Misc.Util.{Text, strncmp}
use frog_kernel.Vfs.{
  Drivers, File, Mount, Vfs, max_mounts, max_path, max_fds, minus_one, advance, alloc_fd, get_file,
  has_directory, has_mountpt, mount_entry, vfs_resolve,
}

abbrev pub file_size : ℕ
file_size = 16

-- A call through the table of operations: -1 if the table or the operation is NULL.
abbrev pub call : {W : Type 0} → Option (W → ℤ × W) → W → ℤ × W
call none w = (minus_one, w)
call (some f) w = f w

-- `fd_table_t` has no entry below 0.
abbrev pub clear_fd : Array ℕ → ℤ → Array ℕ
clear_fd fds (pos fd) = update fds fd 0
clear_fd fds (negsuc n) = fds

abbrev pub names : (slot : ℕ) → Option ℕ → Bool
names slot none = false
names slot (some i) = i == slot

module _ {W : Type 0} where
  abbrev pub set_world : Vfs W → W → Vfs W
  set_world s w = record s { world = w }

  abbrev pub set_file : Vfs W → ℕ → File → Vfs W
  set_file s f file = record s { files = update s.files f file }

  -- `if (n > 0) file->offset += n;`
  abbrev pub moved : Vfs W → (f : ℕ) → ℤ × W → ℤ × Vfs W
  moved s f (n, w) = (
    n,
    set_file (set_world s w) f (record {
      vnode = (s.files f).vnode;
      offset = advance (s.files f).offset n;
      flags = (s.files f).flags;
      ref_count = (s.files f).ref_count;
    }),
  )

  abbrev pub returned : Vfs W → ℤ × W → ℤ × Vfs W
  returned s (n, w) = (n, set_world s w)

module _ {W : Type 0} (drv : Drivers W) where
  -- `if (fd < 0) { kfree(file); return -1; } return fd;`
  unfoldable pub keep_fd : (file : ℕ) → ℤ × Vfs W → ℤ × Vfs W
  keep_fd file (negsuc n, s) = (minus_one, set_world s (drv.kfree file s.world))
  keep_fd file (pos fd, s) = (pos fd, s)

  -- The part of `vfs_open` behind the driver's `open`.
  unfoldable pub open_file : Vfs W → (node flags : ℕ) → ℤ × Vfs W
  open_file s node flags =
      let (file, w) = drv.kmalloc file_size s.world in
      if file == 0
      then (minus_one, set_world s w)
      else let made =
          set_file (set_world s w) file
            (record { vnode = node; offset = 0; flags = flags; ref_count = 1 }) in
        keep_fd file (alloc_fd made file)

  unfoldable pub open_node : Vfs W → (flags : ℕ) → ℕ × W → ℤ × Vfs W
  open_node s flags (node, w) =
      if node == 0 then (minus_one, set_world s w) else elim (drv.open_op w node) [
        | none ↦ open_file (set_world s w) node flags
        | some f ↦
            let (r, w') = f flags w in
            if is_neg r then (minus_one, set_world s w') else open_file (set_world s w') node flags
      ]

  -- `none`: the fuel of the walk is used up, or a name is too long for it.
  unfoldable pub vfs_open : Vfs W → Text → (flags : ℕ) → Option (ℤ × Vfs W)
  vfs_open s path flags = Option.map (open_node s flags) (vfs_resolve drv s path)

  -- `file->ref_count--`, and with the last reference the file is closed and freed.
  unfoldable pub drop_file : W → (file vnode ref_count : ℕ) → W
  drop_file w file vnode count =
      if count == 0
      then elim (drv.close_op w vnode) [
        | none ↦ drv.kfree file w
        | some close ↦ drv.kfree file (close w).1
      ]
      else w

  unfoldable pub release : Vfs W → (file : ℕ) → Vfs W
  unfolding drop_file
  release s file =
      let f = s.files file in
      let count = (f.ref_count + 2 ^ 32 - 1) % 2 ^ 32 in
      record s {
        world = drop_file s.world file f.vnode count;
        files = update s.files file (record f { ref_count = count });
      }

  -- The entry that is cleared is the one of `kernel_fd_table`, whichever table is active.
  unfoldable pub vfs_close : Vfs W → ℤ → ℤ × Vfs W
  unfolding release
  vfs_close s fd =
      if get_file s fd == 0
      then (minus_one, s)
      else let s' = release s (get_file s fd) in
        (
          pos 0,
          record s' { tables = λ t. if t == 0 then clear_fd (s'.tables 0) fd else s'.tables t },
        )

  unfoldable pub vfs_stat : Vfs W → ℤ → (st : ℕ) → ℤ × Vfs W
  vfs_stat s fd st =
      let f = get_file s fd in
      if f == 0
      then (minus_one, s)
      else returned s
          (call (Option.map (λ g. g st) (drv.stat_op s.world (s.files f).vnode)) s.world)

  unfoldable pub vfs_read : Vfs W → ℤ → (buf len : ℕ) → ℤ × Vfs W
  vfs_read s fd buf len =
      let f = get_file s fd in
      if f == 0 then (minus_one, s) else elim (drv.read_op s.world (s.files f).vnode) [
        | none ↦ (minus_one, s)
        | some read ↦ moved s f (read buf len (s.files f).offset s.world)
      ]

  unfoldable pub vfs_write : Vfs W → ℤ → (buf len : ℕ) → ℤ × Vfs W
  vfs_write s fd buf len =
      let f = get_file s fd in
      if f == 0 then (minus_one, s) else elim (drv.write_op s.world (s.files f).vnode) [
        | none ↦ (minus_one, s)
        | some write ↦ moved s f (write buf len (s.files f).offset s.world)
      ]

  unfoldable pub vfs_readdir : Vfs W → ℤ → (index name_out name_max : ℕ) → ℤ × Vfs W
  vfs_readdir s fd index name_out name_max =
      let f = get_file s fd in
      let node = (s.files f).vnode in
      if f == 0
      then (minus_one, s)
      else if not (has_directory (drv.flags s.world node))
      then (minus_one, s)
      else returned s
          (call (Option.map (λ g. g index name_out name_max) (drv.readdir_op s.world node)) s.world)

  unfoldable pub vfs_ioctl : Vfs W → ℤ → (request arg : ℕ) → ℤ × Vfs W
  vfs_ioctl s fd request arg =
      let f = get_file s fd in
      if f == 0
      then (minus_one, s)
      else returned s
          (call (Option.map (λ g. g request arg) (drv.ioctl_op s.world (s.files f).vnode)) s.world)

  -- A slot that a failed mount has written lies behind `mount_count`.
  unfoldable pub vfs_mount : Vfs W → Text → (driver : ℕ) → ℤ × Vfs W
  vfs_mount s path driver =
      if leb max_mounts s.mount_count
      then (minus_one, s)
      else let i = s.mount_count in
        let named = record s {
          mount_table =
              update s.mount_table i
                (mount_entry (take (max_path - 1) path) driver (s.mount_table i).root);
        } in
        let (r, w) = drv.mount driver s.world in
        if is_neg r
        then (minus_one, set_world named w)
        else let (root, w') = drv.get_root driver w in
          let rooted = record named {
            world = w';
            mount_table =
                update named.mount_table i (mount_entry (take (max_path - 1) path) driver root);
          } in
          if root == 0
          then (minus_one, rooted)
          else (pos 0, record rooted { mount_count = s.mount_count + 1 })

  -- The loop that looks for the mount by its path, over the rounds left.
  unfoldable pub mount_index : Vfs W → Text → (rounds i : ℕ) → Option ℕ
  mount_index s path zero i = none
  mount_index s path (suc n) i = elim (is_zero (strncmp (s.mount_table i).path path max_path)) [
    | true ↦ some i
    | false ↦ mount_index s path n (i + 1)
  ]

  -- A file that the kernel has open belongs to the mount in slot `idx`.
  unfoldable pub busy : Vfs W → (idx rounds i : ℕ) → Bool
  busy s idx zero i = false
  busy s idx (suc n) i =
      let file = s.tables 0 i in
      let rest = busy s idx n (i + 1) in
      if not (file == 0)
        && not ((s.files file).vnode == 0)
        && names idx (drv.mount_of s.world (s.files file).vnode)
      then true
      else rest

  -- The slots from `idx` on move down by one, and the last slot is zeroed.
  unfoldable pub remove_mount : Array Mount → (count idx : ℕ) → Array Mount
  remove_mount table count idx i =
      if i == count - 1
      then mount_entry [] 0 0
      else if leb idx i && ltb i (count - 1)
      then table (i + 1)
      else table i

  abbrev unlink : ℕ × W → W
  unlink (parent, w) =
      if not (parent == 0) && has_mountpt (drv.flags w parent)
      then drv.clear_mounted_here parent w
      else w

  abbrev leave : (driver : ℕ) → W → W
  leave driver w = if driver == 0 then w else elim (drv.unmount driver) [ none ↦ w | some f ↦ f w ]

  unfoldable pub vfs_unmount : Vfs W → Text → Option (ℤ × Vfs W)
  unfolding mount_index busy remove_mount
  vfs_unmount s path = elim (mount_index s path s.mount_count 0) [
    | none ↦ some (minus_one, s)
    | some idx ↦
        if busy s idx max_fds 0
        then some (minus_one, s)
        else Option.map
            (λ w. (
              pos 0,
              record s {
                world = leave (s.mount_table idx).driver w;
                mount_table = remove_mount s.mount_table s.mount_count idx;
                mount_count = s.mount_count - 1;
              },
            ))
            (if ltb 0 idx then Option.map unlink (vfs_resolve drv s path) else some s.world)
  ]
