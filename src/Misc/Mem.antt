-- ===== src/Misc/Mem.antt =====
-- The memory functions of src/misc/mem.c. Memory is a function from addresses to bytes, so the areas
-- may overlap.
pub mod Laws
mod Tests
use frog_kernel.Base.{ℕ, zero, suc, ◌+◌, ◌%◌, Bool, true, false, ltb, ◌==◌, if◌then◌else◌}
use frog_kernel.Base.Store.{Array, update}
use frog_kernel.Base.Int.{ℤ, pos, sub_ℕ}

unfoldable pub memset_byte : Array ℕ → (p c n : ℕ) → Array ℕ
memset_byte m p c zero = m
memset_byte m p c (suc n) = memset_byte (update m p c) (p + 1) c n

unfoldable pub memset : Array ℕ → (dst c n : ℕ) → Array ℕ
unfolding memset_byte
memset m dst c n = memset_byte m dst (c % 256) n

-- The loop that goes upwards, which is `memcpy`, and the one that goes downwards: its step `suc n`
-- copies the byte at offset `n`.
unfoldable pub memcpy : Array ℕ → (dst src n : ℕ) → Array ℕ
memcpy m dst src zero = m
memcpy m dst src (suc n) = memcpy (update m dst (m src)) (dst + 1) (src + 1) n

unfoldable pub copy_down : Array ℕ → (dst src n : ℕ) → Array ℕ
copy_down m dst src zero = m
copy_down m dst src (suc n) = copy_down (update m (dst + n) (m (src + n))) dst src n

unfoldable pub memmove : Array ℕ → (dst src n : ℕ) → Array ℕ
memmove m dst src n = if ltb dst src then memcpy m dst src n else copy_down m dst src n

unfoldable pub memcmp : Array ℕ → (a b n : ℕ) → ℤ
memcmp m a b zero = pos 0
memcmp m a b (suc n) = elim (m a == m b) [
  | true ↦ memcmp m (a + 1) (b + 1) n
  | false ↦ sub_ℕ (m a) (m b)
]
