-- ===== src/Gdt.antt =====
-- Segments, src/gdt/gdt.c and gdt.h.
pub mod Decode
use frog_kernel.Base.{ℕ, ◌+◌, ◌-◌, ◌*◌, ◌/◌, ◌%◌, ◌^◌, bit_or, ◌==◌, if◌then◌else◌}
use frog_kernel.Base.Store.{Array, update}

-- `gdt_entry_t`
pub record Entry : Type 0 where
  pub limit_low : ℕ
  pub base_low : ℕ
  pub base_mid : ℕ
  pub access : ℕ
  pub granularity : ℕ
  pub base_high : ℕ

-- The state: the table and the fields of the TSS that are set.
pub record Gdt : Type 0 where
  pub gdt : Array Entry
  pub esp0 : ℕ
  pub ss0 : ℕ
  pub iomap_base : ℕ

-- `((limit >> 16) & 0x0f) | (gran & 0xf0)`: the two have no bit in common.
abbrev pub granularity_byte : (limit gran : ℕ) → ℕ
granularity_byte limit gran = limit / 0x10000 % 0x10 + gran / 0x10 % 0x10 * 0x10

unfoldable pub gdt_set_entry : Array Entry → (i base limit access gran : ℕ) → Array Entry
gdt_set_entry gdt i base limit access gran = update gdt i (record {
  limit_low = limit % 0x10000;
  base_low = base % 0x10000;
  base_mid = base / 0x10000 % 0x100;
  access = access;
  granularity = granularity_byte limit gran;
  base_high = base / 0x1000000 % 0x100;
})

unfoldable pub gdt_set_tss : Array Entry → (i base limit : ℕ) → Array Entry
gdt_set_tss gdt i base limit = update gdt i (record {
  limit_low = limit % 0x10000;
  base_low = base % 0x10000;
  base_mid = base / 0x10000 % 0x100;
  access = 0x89;
  granularity = 0x00;
  base_high = base / 0x1000000 % 0x100;
})

-- `sizeof(tss_t)`
abbrev pub tss_size : ℕ
tss_size = 104

-- The address of `kernel_tss` is the linker's.
unfoldable pub tss_init : (kernel_tss : ℕ) → Gdt → Gdt
unfolding gdt_set_tss
tss_init kernel_tss g = record {
  gdt = gdt_set_tss g.gdt 5 kernel_tss (tss_size - 1);
  esp0 = 0;
  ss0 = 0x10;
  iomap_base = tss_size;
}

unfoldable pub gdt_init : (kernel_tss : ℕ) → Gdt → Gdt
unfolding gdt_set_entry tss_init
gdt_init kernel_tss g =
    let g0 = gdt_set_entry g.gdt 0 0 0 0 0 in
    let g1 = gdt_set_entry g0 1 0 0xffffffff 0x9a 0xcf in
    let g2 = gdt_set_entry g1 2 0 0xffffffff 0x92 0xcf in
    let g3 = gdt_set_entry g2 3 0 0xffffffff 0xfa 0xcf in
    let g4 = gdt_set_entry g3 4 0 0xffffffff 0xf2 0xcf in
    tss_init kernel_tss (record g { gdt = g4 })

unfoldable pub tss_set_kernel_stack : Gdt → (esp0 : ℕ) → Gdt
tss_set_kernel_stack g esp0 = record g { esp0 = esp0 }
