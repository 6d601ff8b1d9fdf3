-- ===== src/Vfs/Files.antt =====
-- Open files of src/vfs/vfs.c: what `vfs_read` does to them.

use frog_kernel.Base.{ℕ, ◌≡◌, ◌≢◌, refl, ◌⊎◌, Option, none, some, ◌==◌, arith, Bool-cases, inl, inr}
use frog_kernel.Base.Int.{ℤ}
use frog_kernel.Vfs.{Drivers, Vfs, minus_one, advance, get_file}
use frog_kernel.Vfs.Calls.{moved, vfs_read}

module _ {W : Type 0} (drv : Drivers W) where
  -- What a read or a write through descriptor `fd` does, if the driver's operation is `op`.
  abbrev pub Moves :
      Vfs W → (file buf len : ℕ) → Option ((buf len offset : ℕ) → W → ℤ × W) → ℤ × Vfs W → Type 0
  Moves s file buf len none r = r ≡ (minus_one, s)
  Moves s file buf len (some op) (n, s') =
      let (m, w) = op buf len (s.files file).offset s.world in
      (n ≡ m)
      × (s'.world ≡ w)
      × (s'.tables ≡ s.tables)
      × (s'.files file ≡ record {
        vnode = (s.files file).vnode;
        offset = advance (s.files file).offset m;
        flags = (s.files file).flags;
        ref_count = (s.files file).ref_count;
      })
      × ((f : ℕ) → f ≢ file → s'.files f ≡ s.files f)

  -- `vfs_read` on a descriptor that names no file returns -1 and changes nothing, and so on a file that
  -- cannot be read. Otherwise it returns what the driver returns for the file's offset, moves the
  -- offset forward by that number if it is positive, and changes no other file and no descriptor.
  pub vfs_read_lem :
      (s : Vfs W) (fd : ℤ) (buf len : ℕ)
      → ((get_file s fd ≡ 0) × (vfs_read drv s fd buf len ≡ (minus_one, s)))
        ⊎ Moves s
            (get_file s fd)
            buf
            len
            (drv.read_op s.world (s.files (get_file s fd)).vnode)
            (vfs_read drv s fd buf len)
  unfolding vfs_read
  vfs_read_lem s fd buf len = elim (Bool-cases (get_file s fd == 0)) [
    | inl null ↦ inl (ground arith, rw null)
    | inr there ↦ inr (rw there (by_op (drv.read_op s.world (s.files (get_file s fd)).vnode)))
  ]
    where
      by_op :
          (o : Option ((buf len offset : ℕ) → W → ℤ × W))
          → Moves s (get_file s fd) buf len o (elim o [
            | none ↦ (minus_one, s)
            | some read ↦
                moved s (get_file s fd) (read buf len (s.files (get_file s fd)).offset s.world)
          ])
      by_op none = refl
      by_op (some op) = (refl, refl, refl, ground arith, λ f ne. ground arith)
