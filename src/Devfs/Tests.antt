-- ===== src/Devfs/Tests.antt =====
-- A registry with a device `t`, to which a device `n` is added.
use frog_kernel.Base.{◌≡◌, refl, true, false, [], ◌∷◌, arith}
use frog_kernel.Base.Int.{pos}
use frog_kernel.Misc.Util.{Text, strcmp}
use frog_kernel.Devfs.{Entry, Devfs, devfs_register, devfs_root_finddir}
use frog_kernel.Devfs.Registry.{answers, devfs_root_finddir-devfs_register}

abbrev name : Text
name = b'n' ∷ []

abbrev old : Entry
old = record { name = b't' ∷ []; ops = 0x2000; private_data = 0; flags = 1; active = true }

abbrev before : Devfs
before = record {
  registry = λ i. old;
  registry_count = 1;
  devfs_root = 0x3000;
  vnodes = λ a. record { flags = 0; ops = 0; private_data = 0 };
}

other : answers old name ≡ false
unfolding strcmp
other = refl

devfs_root_finddir-devfs_register_example :
    (let (r, d') = devfs_register before name 0x2100 7 1 in
      let (found, d'') = devfs_root_finddir d' 0x4000 name in
      (r ≡ pos 0)
      × (found ≡ 0x4000)
      × (d''.vnodes 0x4000 ≡ record { flags = 1; ops = 0x2100; private_data = 7 }))
devfs_root_finddir-devfs_register_example =
    devfs_root_finddir-devfs_register before name 0x2100 7 1 0x4000 (omega arith)
      (omega arith, omega arith, tt) (omega arith) (λ i h. other) (omega arith)
