-- ===== src/Misc/Mem/Tests.antt =====
-- The memory functions on the memory whose byte at address `i` is `i`.
use frog_kernel.Base.{ℕ, ◌≡◌}
use frog_kernel.Base.Store.{Array}
use frog_kernel.Misc.Mem.{memmove}
use frog_kernel.Misc.Mem.Laws.{memmove_lem}

abbrev ramp : Array ℕ
ramp i = i

-- The destination begins inside the source.
memmove_lem_example : memmove ramp 6 4 5 9 ≡ 7
memmove_lem_example = memmove_lem ramp 6 4 5 9
