-- ===== src/Memory/Paging/Entries.antt =====
-- What an entry of src/memory/paging.c says: its frame and whether it is present.
use frog_kernel.Base.{ℕ, ◌/◌, ◌%◌, ◌≡◌, refl, true, bit_or, ltb, ◌==◌, ◌&&◌, arith}
use frog_kernel.Base.Store.{rows_pass, row-rows_pass}
use frog_kernel.Memory.Paging.{or_flags, entry, frame_of, is_present, pd_flags}

present_table : rows_pass 0x1000 (λ x. ltb (bit_or x 1) 0x1000 && bit_or x 1 % 2 == 1) ≡ true
unfolding rows_pass
present_table = refl

-- An entry names the frame of its address, and is present.
pub entry_lem :
    (phys flags : ℕ)
    → (frame_of (entry phys flags) ≡ phys / 0x1000) × (is_present (entry phys flags) ≡ true)
unfolding entry
entry_lem phys flags = ground (
  arith,
  row-rows_pass 0x1000 (λ x. ltb (bit_or x 1) 0x1000 && bit_or x 1 % 2 == 1) (flags % 0x1000)
      present_table,
)

pub or_flags_lem :
    (a flags : ℕ)
    → a % 0x1000 ≡ 0
    → (frame_of (or_flags a (pd_flags flags)) ≡ a / 0x1000)
      × (is_present (or_flags a (pd_flags flags)) ≡ true)
unfolding or_flags
or_flags_lem a flags h = rw h (ground arith)
