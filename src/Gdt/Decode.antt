-- ===== src/Gdt/Decode.antt =====
-- What the processor makes of the descriptors of src/gdt/gdt.c.
use frog_kernel.Base.{
  ℕ, ◌+◌, ◌-◌, ◌*◌, ◌/◌, ◌%◌, ◌^◌, ◌<◌, ◌≡◌, refl, true, ◌==◌, if◌then◌else◌, arith,
}
use frog_kernel.Base.Store.{Array}
use frog_kernel.Gdt.{Entry, Gdt, gdt_set_entry, gdt_init, tss_size}

unfoldable pub base_of : Entry → ℕ
base_of e = e.base_high * 0x1000000 + e.base_mid * 0x10000 + e.base_low

-- The last offset of a segment: in pages if bit 7 of the granularity byte is set.
unfoldable pub limit_of : Entry → ℕ
limit_of e =
    let raw = e.granularity % 0x10 * 0x10000 + e.limit_low in
    if e.granularity / 0x80 % 2 == 1 then raw * 0x1000 + 0xfff else raw

-- The privilege level, bits 5 and 6 of the access byte.
unfoldable pub level_of : Entry → ℕ
level_of e = e.access / 0x20 % 4

-- A descriptor gives back the base that was set, and the limit in units of the granularity.
pub gdt_set_entry_lem :
    (gdt : Array Entry) (i base limit access gran : ℕ)
    → base < 2 ^ 32
    → limit < 2 ^ 20
    → (let e = gdt_set_entry gdt i base limit access gran i in
        (base_of e ≡ base)
        × (limit_of e ≡ (if gran / 0x80 % 2 == 1 then limit * 0x1000 + 0xfff else limit))
        × (e.access ≡ access))
unfolding gdt_set_entry base_of limit_of
gdt_set_entry_lem gdt i base limit access gran h k = (ground (arith, h), limit_kept, ground arith)
  where
    i_self : (i == i) ≡ true
    i_self = ground arith

    raw :
        (limit / 0x10000 % 0x10 + gran / 0x10 % 0x10 * 0x10) % 0x10 * 0x10000 + limit % 0x10000
        ≡ limit
    raw = omega (arith, k)

    bit : (limit / 0x10000 % 0x10 + gran / 0x10 % 0x10 * 0x10) / 0x80 % 2 ≡ gran / 0x80 % 2
    bit = omega arith

    limit_kept :
        limit_of (gdt_set_entry gdt i base limit access gran i)
        ≡ (if gran / 0x80 % 2 == 1 then limit * 0x1000 + 0xfff else limit)
    limit_kept = rw (limit_of, gdt_set_entry, i_self, raw, bit) refl

-- A segment over all of memory, at a privilege level.
abbrev pub Flat : Entry → (level : ℕ) → Type 0
Flat e level = (base_of e ≡ 0) × (limit_of e ≡ 0xffffffff) × (level_of e ≡ level)

-- After `gdt_init`, the selectors 0x08 and 0x10 name segments over all of memory for the kernel, 0x1b
-- and 0x23 such segments for programs, and 0x28 the TSS, with its address and its size.
pub gdt_init_lem :
    (kernel_tss : ℕ) (g : Gdt)
    → kernel_tss < 2 ^ 32
    → (let t = (gdt_init kernel_tss g).gdt in
        Flat (t (0x08 / 8)) 0
        × Flat (t (0x10 / 8)) 0
        × Flat (t (0x1b / 8)) 3
        × Flat (t (0x23 / 8)) 3
        × (base_of (t (0x28 / 8)) ≡ kernel_tss)
        × (limit_of (t (0x28 / 8)) ≡ tss_size - 1))
unfolding gdt_init base_of limit_of level_of
gdt_init_lem kernel_tss g h = (
  (refl, refl, refl),
  (refl, refl, refl),
  (refl, refl, refl),
  (refl, refl, refl),
  omega (arith, h),
  refl,
)
