-- ===== src/Initrd/Fs.antt =====
-- The file system on the initial RAM disk, src/initrd/initrdfs.c. `initrd_vnode_create` allocates a
-- vnode and its data; the addresses that `kmalloc` returns are arguments.
pub mod Read
use frog_kernel.Base.{
  ℕ, zero, suc, ◌+◌, ◌-◌, ◌/◌, ◌%◌, ◌^◌, Bool, true, false, ◌&&◌, ◌||◌, not, Option, none, some,
  List, [], ◌∷◌, ◌++◌, ltb, leb, ◌==◌, if◌then◌else◌, take, drop, length, get_or,
}
use frog_kernel.Base.Int.{ℤ, pos, negsuc, is_zero}
use frog_kernel.Base.Store.{Array, update}
use frog_kernel.Misc.Util.{Text, strnlen, strncmp, strchr, strncpy}
use frog_kernel.Misc.Mem.{memcpy}
use frog_kernel.Devices.Chars.{to_ssize}
use frog_kernel.Initrd.{
  Initrd, File, full_path, overruns, is_header, next_header, find_path, file_at, initrd_lookup,
  at_typeflag,
}

abbrev pub vfs_file : ℕ
vfs_file = 0x01

abbrev pub vfs_directory : ℕ
vfs_directory = 0x02

-- A vnode of this file system, with its `initrd_vnode_data_t`, and which of the two tables of
-- operations it has.
pub record Vnode : Type 0 where
  pub path : Text
  pub flags : ℕ
  pub size : ℕ
  pub is_dir : Bool

abbrev pub minus_one : ℤ
minus_one = negsuc 0

-- The memory with what was read, and the result. `none`: the fuel of the lookup is used up.
unfoldable pub read_file : Array ℕ → File → (buf len offset : ℕ) → ℤ × Array ℕ
read_file mem f buf len offset =
    let available = (f.size + 2 ^ 32 - offset) % 2 ^ 32 in
    let to_read = (if ltb len available then len else available) in
    if f.data_at == 0
    then (minus_one, mem)
    else if leb f.size offset
    then (pos 0, mem)
    else (to_ssize to_read, memcpy mem buf (f.data_at + offset) to_read)

unfoldable pub initrd_file_read :
    (fuel : ℕ) → Array ℕ → Initrd → Vnode → (buf len offset : ℕ) → Option (ℤ × Array ℕ)
initrd_file_read fuel mem d node buf len offset = elim (initrd_lookup fuel mem d node.path) [
  | none ↦ none
  | some f ↦ some (read_file mem f buf len offset)
]

-- `struct stat`: the size and the mode, the rest zeroed.
pub record Stat : Type 0 where
  pub st_size : ℕ
  pub st_mode : ℕ

unfoldable pub initrd_file_stat : (fuel : ℕ) → Array ℕ → Initrd → Vnode → Option (Option Stat)
initrd_file_stat fuel mem d node = elim (initrd_lookup fuel mem d node.path) [
  | none ↦ none
  | some f ↦ some (
      if f.data_at == 0
      then none
      else some (record {
        st_size = f.size;
        st_mode = if node.flags / 2 % 2 == 1 then 0x4000 else 0x8000;
      }))
]

-- `initrd_vnode_create`: NULL if one of the two allocations fails.
unfoldable pub initrd_vnode_create :
    (fuel : ℕ) → Array ℕ → Initrd → (node priv : ℕ) → Text → (typeflag : ℕ) → Option (Option Vnode)
initrd_vnode_create fuel mem d node priv path typeflag =
    let dir : Vnode = record {
      path = take 255 path;
      flags = vfs_directory;
      size = 0;
      is_dir = true;
    } in
    if node == 0 || priv == 0
    then some none
    else if typeflag == b'5'
    then some (some dir)
    else elim (initrd_lookup fuel mem d path) [
      | none ↦ none
      | some f ↦ some (
          some (record {
            path = take 255 path;
            flags = vfs_file;
            size = if f.data_at == 0 then 0 else f.size;
            is_dir = false;
          }))
    ]

-- The vnode of the whole archive.
unfoldable pub initrd_get_root :
    (fuel : ℕ) → Array ℕ → Initrd → (node priv : ℕ) → Option (Option Vnode)
unfolding initrd_vnode_create
initrd_get_root fuel mem d node priv = initrd_vnode_create fuel mem d node priv [] b'5'

-- `child_path`, cut to 255 characters by `ksnprintf`.
unfoldable pub child_path : (dir name : Text) → Text
child_path dir name =
    let plain = take 255 name in
    let nested = take 255 (dir ++ b'/' ∷ name) in
    if length dir == 0 || (length dir == 1 && get_or dir 0 0 == b'/') then plain else nested

unfoldable pub initrd_dir_finddir :
    (fuel : ℕ) → Array ℕ → Initrd → (node priv : ℕ) → Vnode → (name : Text) → Option (Option Vnode)
initrd_dir_finddir fuel mem d node priv dir name =
    elim (find_path mem (d.addr + d.size) (child_path dir.path name) fuel d.addr) [
      | none ↦ none
      | some hdr ↦
          if hdr == 0
          then some none
          else initrd_vnode_create fuel mem d node priv (full_path mem hdr)
              (mem (hdr + at_typeflag))
    ]

-- `rest`, what is left of a path behind the directory's, or NULL.
unfoldable pub rest_of : (dir path : Text) → Option Text
rest_of dir path =
    let n = length dir in
    let tail = drop (n + 1) path in
    if n == 0
    then some path
    else if is_zero (strncmp path dir n) && get_or path n 0 == b'/'
    then some tail
    else none

abbrev pub no_slash : Option ℕ → Bool
no_slash none = true
no_slash (some i) = false

-- A child has a name without a slash.
unfoldable pub child_of : (dir path : Text) → Option Text
unfolding rest_of
child_of dir path = elim (rest_of dir path) [
  | none ↦ none
  | some r ↦ if ltb 0 (strnlen r 256) && no_slash (strchr r b'/') then some r else none
]

-- The loop of `initrd_dir_readdir`: the name of the child with the index; the outer `none`: the
-- fuel is used up, or a path does not fit into `fullpath`.
unfoldable pub nth_child :
    Array ℕ → (end : ℕ) → (dir : Text) → (index fuel ptr found : ℕ) → Option (Option Text)
nth_child mem end dir index zero ptr found = none
nth_child mem end dir index (suc f) ptr found =
    let same = nth_child mem end dir index f (next_header mem ptr) found in
    let more = nth_child mem end dir index f (next_header mem ptr) (found + 1) in
    if not (is_header mem end ptr)
    then some none
    else if overruns mem ptr
    then none
    else elim (child_of dir (full_path mem ptr)) [
      | none ↦ same
      | some r ↦ if found == index then some (some r) else more
    ]

unfoldable pub initrd_dir_readdir :
    (fuel : ℕ)
    → Array ℕ
    → Initrd
    → Vnode
    → (index : ℕ) → (name_out : Array ℕ) → (name_max : ℕ) → Option (ℤ × Array ℕ)
initrd_dir_readdir fuel mem d dir index name_out name_max =
    elim (nth_child mem (d.addr + d.size) dir.path index fuel d.addr 0) [
      | none ↦ none
      | some r ↦ elim r [
        | none ↦ some (minus_one, name_out)
        | some name ↦
            let last = (name_max + 2 ^ 32 - 1) % 2 ^ 32 in
            some (pos 0, update (strncpy name_out name last) last 0)
      ]
    ]
