-- ===== src/Ksym.antt =====
-- Kernel symbols, `ksym_lookup` of src/ksym/ksym.c. The table comes from a generator, in the order of
-- the addresses. What is printed is left out.
pub mod Sorted
pub mod Format
mod Tests
use frog_kernel.Base.{
  ℕ, zero, suc, ◌+◌, ◌-◌, ◌%◌, ◌^◌, Option, none, some, List, [], ◌∷◌, ltb, ◌==◌, if◌then◌else◌,
  length, get_elem?,
}
use frog_kernel.Misc.Util.{Text}

-- `ksym_entry_t`
pub record Symbol : Type 0 where
  pub addr : ℕ
  pub name : Text

-- The loop from entry `i` on: the index of the last entry before one that lies above `eip`.
unfoldable pub best_from : (eip i : ℕ) → (best : Option ℕ) → List Symbol → Option ℕ
best_from eip i best [] = best
best_from eip i best (s ∷ ss) =
    let later = best_from eip (i + 1) (some i) ss in if ltb eip s.addr then best else later

-- What `ksym_lookup` gives: the symbol, `*offset_out` and `*size_out`. `none` stands for "??".
pub record Found : Type 0 where
  pub name : Text
  pub offset : ℕ
  pub size : ℕ

abbrev pub size_of : (addr : ℕ) → Option Symbol → ℕ
size_of addr none = 0
size_of addr (some next) = (next.addr + 2 ^ 32 - addr) % 2 ^ 32

unfoldable pub found_at : (eip : ℕ) → List Symbol → (i : ℕ) → Option Symbol → Option Found
found_at eip table i none = none
found_at eip table i (some s) = some (record {
  name = s.name;
  offset = eip - s.addr;
  size = size_of s.addr (get_elem? table (i + 1));
})

unfoldable pub ksym_lookup : List Symbol → (eip : ℕ) → Option Found
unfolding best_from found_at
ksym_lookup table eip = elim (best_from eip 0 none table) [
  | none ↦ none
  | some i ↦ found_at eip table i (get_elem? table i)
]
