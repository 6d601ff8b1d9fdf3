-- ===== src/Memory/Mmap.antt =====
-- The memory map, src/memory/mmap.c: the loop over the entries of the memory map tag.
-- The entries come as a list, in the order in which `entry_ptr` meets them.
pub mod Regions
pub mod Tag
use frog_kernel.Base.{
  ℕ, zero, suc, ◌+◌, ◌-◌, ◌%◌, ◌^◌, ◌≤◌, ◌<◌, min, ◌≡◌, ◌∙◌, refl, Bool, true, false, ◌&&◌, List,
  [], ◌∷◌, ◌++◌, ltb, leb, ◌==◌, if◌then◌else◌, length, take, length-append, arith, Bool-cases, inl,
  inr,
}

-- `mb2_mmap_entry_t`: two uint64_t and the type.
pub record Entry : Type 0 where
  pub base_addr : ℕ
  pub length : ℕ
  pub type : ℕ

-- `mem_region_t`
pub record Region : Type 0 where
  pub base : ℕ
  pub length : ℕ

abbrev pub max_mem_regions : ℕ
max_mem_regions = 32

-- `usable_regions` up to `usable_region_count`, and `total_memory`.
pub record Mmap : Type 0 where
  pub usable_regions : List Region
  pub total_memory : ℕ

-- The length that is counted: the part of the entry below 4 GiB.
unfoldable pub clipped : Entry → ℕ
clipped e =
    if ltb 0x100000000 ((e.base_addr + e.length) % 2 ^ 64)
    then (0x100000000 - e.base_addr) % 2 ^ 32
    else e.length % 2 ^ 32

-- One round of the loop.
unfoldable pub add_entry : Mmap → Entry → Mmap
unfolding clipped
add_entry m e =
    if ltb e.base_addr 0x100000000
    then record {
      usable_regions =
          (if e.type == 1 && ltb (length m.usable_regions) max_mem_regions
            then m.usable_regions ++ record { base = e.base_addr % 2 ^ 32; length = clipped e } ∷ []
            else m.usable_regions);
      total_memory = (m.total_memory + clipped e) % 2 ^ 32;
    }
    else m

-- The loop from a given state, and from the state at boot.
unfoldable pub add_entries : Mmap → List Entry → Mmap
add_entries m [] = m
add_entries m (e ∷ es) = add_entries (add_entry m e) es

unfoldable pub mmap_init : List Entry → Mmap
unfolding add_entries
mmap_init es = add_entries (record { usable_regions = []; total_memory = 0 }) es
