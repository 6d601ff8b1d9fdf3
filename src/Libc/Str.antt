-- ===== src/Libc/Str.antt =====
-- initrd/libc/string.c. Its functions are the kernel's, statement for statement, so they are the
-- same functions here: those of src/misc/mem.c and src/misc/util.c.
use frog_kernel.Base.{ℕ, Option}
use frog_kernel.Base.Store.{Array}
use frog_kernel.Base.Int.{ℤ}
use frog_kernel.Misc.Mem
use frog_kernel.Misc.Util
use frog_kernel.Misc.Util.{Text}

abbrev pub memset : Array ℕ → (dst c n : ℕ) → Array ℕ
memset = Mem.memset

abbrev pub memcpy : Array ℕ → (dst src n : ℕ) → Array ℕ
memcpy = Mem.memcpy

abbrev pub memmove : Array ℕ → (dst src n : ℕ) → Array ℕ
memmove = Mem.memmove

abbrev pub memcmp : Array ℕ → (a b n : ℕ) → ℤ
memcmp = Mem.memcmp

abbrev pub strlen : Text → ℕ
strlen = Util.strlen

abbrev pub strnlen : Text → ℕ → ℕ
strnlen = Util.strnlen

abbrev pub strcpy : Array ℕ → Text → Array ℕ
strcpy = Util.strcpy

abbrev pub strncpy : Array ℕ → Text → ℕ → Array ℕ
strncpy = Util.strncpy

abbrev pub strcmp : Text → Text → ℤ
strcmp = Util.strcmp

abbrev pub strncmp : Text → Text → ℕ → ℤ
strncmp = Util.strncmp

abbrev pub strchr : Text → ℕ → Option ℕ
strchr = Util.strchr

abbrev pub strrchr : Text → ℕ → Option ℕ
strrchr = Util.strrchr
