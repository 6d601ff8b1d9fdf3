-- ===== src/Syscall/Pointers.antt =====
-- The check of user pointers, `val_ptr` of src/userspace/usyscall.c, and the texts they name.

use frog_kernel.Base.{
  ℕ, zero, suc, ◌+◌, ◌%◌, ◌^◌, ◌<◌, ◌≤◌, ◌≡◌, ◌≢◌, ◌⊎◌, ◌↔◌, refl, true, false, some, [], ◌∷◌, ◌==◌,
  length, arith, min,
}
use frog_kernel.Base.Store.{Array}
use frog_kernel.Misc.Util.{Text, kernel_virt_base}
use frog_kernel.Syscall.{val_ptr, strnlen_at, text_at}

-- `val_ptr` accepts a range of addresses exactly if it does not begin at NULL, begins below the
-- kernel, and either ends below the kernel or ends past 2^32 by less than the kernel's address, in
-- which case it covers the whole kernel.
pub val_ptr_lem :
    (addr len : ℕ)
    → addr < 2 ^ 32
    → len < 2 ^ 32
    → (val_ptr addr len ≡ true) ↔ (
        (addr ≢ 0)
        × (addr < kernel_virt_base)
        × ((addr + len < kernel_virt_base)
            ⊎ ((2 ^ 32 ≤ addr + len) × (addr + len < 2 ^ 32 + kernel_virt_base))))
unfolding val_ptr
val_ptr_lem addr len h k = ground arith

-- A text lies at an address, with its NUL.
abbrev pub TextAt : Array ℕ → (addr : ℕ) → Text → Type 0
TextAt m a [] = m a ≡ 0
TextAt m a (c ∷ s) = (m a ≡ c) × (c ≢ 0) × TextAt m (a + 1) s

pub text_at_lem :
    (fuel : ℕ) (m : Array ℕ) (a : ℕ) (s : Text)
    → TextAt m a s
    → length s < fuel
    → a + length s < 2 ^ 32
    → text_at fuel m a ≡ some s
unfolding text_at
text_at_lem zero m a s t h k = absurd (omega arith)
text_at_lem (suc f) m a [] t h k = ground (arith, t)
text_at_lem (suc f) m a (c ∷ s) (e, ne, t) h k =
    rw (text_at, next, e, nz, text_at_lem f m (a + 1) s t (omega arith) (omega arith)) refl
  where
    next : (a + 1) % 2 ^ 32 ≡ a + 1
    next = omega arith

    nz : (c == 0) ≡ false
    nz = ground (arith, ne)

pub strnlen_at_lem :
    (n : ℕ) (m : Array ℕ) (a : ℕ) (s : Text)
    → TextAt m a s
    → a + length s < 2 ^ 32
    → strnlen_at m a n ≡ min n (length s)
unfolding strnlen_at
strnlen_at_lem zero m a s t k = omega arith
strnlen_at_lem (suc n) m a [] t k = ground (arith, t)
strnlen_at_lem (suc n) m a (c ∷ s) (e, ne, t) k =
    rw (strnlen_at, next, e, nz, strnlen_at_lem n m (a + 1) s t (omega arith)) (omega arith)
  where
    next : (a + 1) % 2 ^ 32 ≡ a + 1
    next = omega arith

    nz : (c == 0) ≡ false
    nz = ground (arith, ne)
