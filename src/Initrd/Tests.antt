-- ===== src/Initrd/Tests.antt =====
-- An archive at 0x1000 with a file `a` of two bytes.
use frog_kernel.Base.{ℕ, ◌+◌, false, List, [], ◌∷◌, ◌==◌, if◌then◌else◌}
use frog_kernel.Base.Store.{Array}
use frog_kernel.Misc.Util.{Text}
use frog_kernel.Initrd.{Initrd}
use frog_kernel.Initrd.Archive.{Member, Archive}
use frog_kernel.Initrd.Fs.{Vnode}

-- The bytes that are not zero.
abbrev byte_in : List (ℕ × ℕ) → Array ℕ
byte_in [] a = 0
byte_in ((b, v) ∷ bs) a = if a == b then v else byte_in bs a

abbrev memory : Array ℕ
memory = byte_in (
    (0x1000, b'a')
    ∷ (0x1000 + 124, b'2')
    ∷ (0x1000 + 257, b'u')
    ∷ (0x1000 + 258, b's')
    ∷ (0x1000 + 259, b't')
    ∷ (0x1000 + 260, b'a')
    ∷ (0x1000 + 261, b'r')
    ∷ (0x1200, b'h')
    ∷ (0x1201, b'i')
    ∷ [])

abbrev disk : Initrd
disk = record { addr = 0x1000; phys_addr = 0x1000; size = 1024 }

abbrev path : Text
path = b'a' ∷ []

abbrev member : Member
member = record {
  at = 0x1000;
  prefix = [];
  name = path;
  path = path;
  digits = 2 ∷ [];
  size = 2;
  blocks = 1;
}

abbrev node : Vnode
node = record { path = path; flags = 1; size = 2; is_dir = false }
