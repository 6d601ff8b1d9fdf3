-- ===== src/Devfs.antt =====
-- The device file system, src/devfs/devfs.c and devfs.h. The registry keeps what a driver has
-- registered; a lookup makes a vnode on the heap, which is behind the same interface as that of Vfs.
pub mod Registry
mod Tests
use mathlib.Core.Option
use frog_kernel.Base.{
  ℕ, zero, suc, ◌+◌, ◌-◌, ◌%◌, ◌^◌, Bool, true, false, ◌&&◌, Option, none, some, List, [], ◌∷◌, leb,
  ◌==◌, if◌then◌else◌, take, ◌++◌, replicate,
}
use frog_kernel.Base.Int.{ℤ, pos, negsuc, is_zero}
use frog_kernel.Base.Store.{Array, update}
use frog_kernel.Misc.Util.{Text, strcmp, strncpy}

abbrev pub devfs_max_devices : ℕ
devfs_max_devices = 64

-- `devfs_entry_t`; `ops` is the address of the table of operations.
pub record Entry : Type 0 where
  pub name : Text
  pub ops : ℕ
  pub private_data : ℕ
  pub flags : ℕ
  pub active : Bool

-- The fields of a `vnode_t` that are set.
pub record Vnode : Type 0 where
  pub flags : ℕ
  pub ops : ℕ
  pub private_data : ℕ

-- `registry`, `registry_count` and `devfs_root`; the vnodes by their address.
pub record Devfs : Type 0 where
  pub registry : Array Entry
  pub registry_count : ℕ
  pub devfs_root : ℕ
  pub vnodes : Array Vnode

abbrev pub minus_one : ℤ
minus_one = negsuc 0

-- `strncpy(entry->name, name, 63)` and a NUL behind it.
abbrev pub name_of : Text → Text
name_of name = take 63 name

unfoldable pub devfs_register : Devfs → Text → (ops private_data flags : ℕ) → ℤ × Devfs
devfs_register d name ops private_data flags =
    if leb devfs_max_devices d.registry_count then (minus_one, d) else (
      pos 0,
      record d {
        registry = update d.registry d.registry_count (record {
          name = name_of name;
          ops = ops;
          private_data = private_data;
          flags = flags;
          active = true;
        });
        registry_count = d.registry_count + 1;
      },
    )

-- `sizeof(vnode_t)`
abbrev pub vnode_size : ℕ
vnode_size = 32

abbrev vnode_of : Entry → Vnode
vnode_of e = record { flags = e.flags; ops = e.ops; private_data = e.private_data }

-- `node` is what `kmalloc` returned.
unfoldable pub devfs_vnode_from_entry : Devfs → (node : ℕ) → Entry → ℕ × Devfs
devfs_vnode_from_entry d node e =
    if node == 0 then (0, d) else (node, record d { vnodes = update d.vnodes node (vnode_of e) })

-- The loop of `devfs_root_finddir`: the index of the entry.
unfoldable pub find_entry : Array Entry → Text → (rounds i : ℕ) → Option ℕ
find_entry registry name zero i = none
find_entry registry name (suc n) i =
    let later = find_entry registry name n (i + 1) in
    if (registry i).active && is_zero (strcmp (registry i).name name) then some i else later

unfoldable pub devfs_root_finddir : Devfs → (node : ℕ) → Text → ℕ × Devfs
devfs_root_finddir d node name = elim (find_entry d.registry name d.registry_count 0) [
  | none ↦ (0, d)
  | some i ↦ devfs_vnode_from_entry d node (d.registry i)
]

-- The loop of `devfs_root_readdir`: the index of the entry that is `index`-th among the active ones.
unfoldable pub nth_entry : Array Entry → (index rounds i found : ℕ) → Option ℕ
nth_entry registry index zero i found = none
nth_entry registry index (suc n) i found =
    let same = nth_entry registry index n (i + 1) found in
    let more = nth_entry registry index n (i + 1) (found + 1) in
    if (registry i).active then (if found == index then some i else more) else same

-- The result and the buffer: `strncpy(name_out, name, name_max - 1)` and a NUL at its end.
unfoldable pub devfs_root_readdir :
    Devfs → (index : ℕ) → (name_out : Array ℕ) → (name_max : ℕ) → ℤ × Array ℕ
devfs_root_readdir d index name_out name_max =
    elim (nth_entry d.registry index d.registry_count 0 0) [
      | none ↦ (minus_one, name_out)
      | some i ↦
          let last = (name_max + 2 ^ 32 - 1) % 2 ^ 32 in
          (pos 0, update (strncpy name_out (d.registry i).name last) last 0)
    ]

abbrev root_vnode : (root_ops : ℕ) → Vnode
root_vnode root_ops = record { flags = 0x02; ops = root_ops; private_data = 0 }

-- `root` is what `kmalloc` returned, `root_ops` the address of `devfs_root_ops`.
unfoldable pub devfs_mount : Devfs → (root root_ops : ℕ) → ℤ × Devfs
devfs_mount d root root_ops = if root == 0 then (minus_one, record d { devfs_root = 0 }) else (
  pos 0,
  record d { devfs_root = root; vnodes = update d.vnodes root (root_vnode root_ops) },
)

-- The address that is freed, and the file system without its root.
unfoldable pub devfs_unmount : Devfs → ℕ × Devfs
devfs_unmount d = (d.devfs_root, record d { devfs_root = 0 })

abbrev pub devfs_get_root : Devfs → ℕ
devfs_get_root d = d.devfs_root
