-- ===== src/Misc/Mem/Laws.antt =====
-- What the functions of src/misc/mem.c do to each byte of memory.
use frog_kernel.Base.{
  ℕ, zero, suc, ◌+◌, ◌-◌, ◌%◌, ◌<◌, ◌≤◌, ◌≡◌, refl, ◌⊎◌, ◌↔◌, Bool, ◌&&◌, ltb, leb, ◌==◌,
  if◌then◌else◌, arith, Bool-cases, inl, inr,
}
use frog_kernel.Base.Store.{Array, update}
use frog_kernel.Base.Int.{pos, sub_ℕ-zero}
use frog_kernel.Misc.Mem.{memset_byte, memset, memcpy, copy_down, memmove, memcmp}

-- Address `i` is one of the `n` addresses from `p` on.
abbrev pub within : (p n i : ℕ) → Bool
within p n i = leb p i && ltb i (p + n)

memset_byte_lem :
    (m : Array ℕ) (p c n i : ℕ) → memset_byte m p c n i ≡ (if within p n i then c else m i)
unfolding memset_byte
memset_byte_lem m p c zero i = ground arith
memset_byte_lem m p c (suc n) i = ground (arith, memset_byte_lem (update m p c) (p + 1) c n i)

-- `memset` writes the low byte of `c` to the `n` bytes of the area, and nothing else.
pub memset_lem :
    (m : Array ℕ) (p c n i : ℕ) → memset m p c n i ≡ (if within p n i then c % 256 else m i)
unfolding memset
memset_lem m p c n i = memset_byte_lem m p (c % 256) n i

memcpy_up :
    (m : Array ℕ) (d s n i : ℕ)
    → (d ≤ s) ⊎ (s + n ≤ d)
    → memcpy m d s n i ≡ (if within d n i then m (s + (i - d)) else m i)
unfolding memcpy
memcpy_up m d s zero i h = ground arith
memcpy_up m d s (suc n) i h =
    ground (arith, memcpy_up (update m d (m s)) (d + 1) (s + 1) n i (omega arith))

copy_down_lem :
    (m : Array ℕ) (d s n i : ℕ)
    → s ≤ d
    → copy_down m d s n i ≡ (if within d n i then m (s + (i - d)) else m i)
unfolding copy_down
copy_down_lem m d s zero i h = ground arith
copy_down_lem m d s (suc n) i h =
    ground (arith, copy_down_lem (update m (d + n) (m (s + n))) d s n i h)

-- `memmove` copies the area as it was before the call, byte for byte, and changes nothing else,
-- however the source and the destination overlap.
pub memmove_lem :
    (m : Array ℕ) (d s n i : ℕ)
    → memmove m d s n i ≡ (if within d n i then m (s + (i - d)) else m i)
unfolding memmove
memmove_lem m d s n i = elim (Bool-cases (ltb d s)) [
  | inl up ↦ rw up (memcpy_up m d s n i (inl (ground arith)))
  | inr down ↦ rw down (copy_down_lem m d s n i (ground arith))
]

-- `memcpy` leaves the memory that `memmove` leaves, byte for byte, where the destination begins at
-- or before the source, or past its end.
pub memcpy_lem :
    (m : Array ℕ) (d s n i : ℕ) → (d ≤ s) ⊎ (s + n ≤ d) → memcpy m d s n i ≡ memmove m d s n i
memcpy_lem m d s n i h = rw (memcpy_up m d s n i h, memmove_lem m d s n i)

-- `memcmp` returns 0 exactly if the two areas hold the same bytes.
pub memcmp-zero_iff :
    (m : Array ℕ) (a b n : ℕ) → (memcmp m a b n ≡ pos 0) ↔ ((i : ℕ) → i < n → m (a + i) ≡ m (b + i))
unfolding memcmp
memcmp-zero_iff m a b zero = (λ e i h. absurd (omega arith), λ h. refl)
memcmp-zero_iff m a b (suc n) = elim (Bool-cases (m a == m b)) [
  | inl e ↦
      rw (e, memcmp)
        (
          λ z i h. ground (arith, (memcmp-zero_iff m (a + 1) (b + 1) n).0 z (i - 1)),
          λ h. (memcmp-zero_iff m (a + 1) (b + 1) n).1 (λ i k. ground (arith, h (i + 1))),
        )
  | inr e ↦
      rw (e, memcmp)
        (
          λ z. absurd (ground (arith, (sub_ℕ-zero (m a) (m b)).0)),
          λ h. absurd (ground (arith, h 0)),
        )
]
