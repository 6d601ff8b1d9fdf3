-- ===== src/Ksym/Tests.antt =====
-- A table of two symbols, and an address in the second of them.
use frog_kernel.Base.{◌≡◌, refl, some, List, [], ◌∷◌, arith}
use frog_kernel.Ksym.{Symbol, ksym_lookup, best_from, found_at}
use frog_kernel.Ksym.Sorted.{Looked, ksym_lookup_lem}

abbrev first : Symbol
first = record { addr = 0x1000; name = b'a' ∷ [] }

abbrev second : Symbol
second = record { addr = 0x1040; name = b'b' ∷ [] }

abbrev table : List Symbol
table = first ∷ second ∷ []

in_first : ksym_lookup table 0x1004 ≡ some (record { name = b'a' ∷ []; offset = 4; size = 0x40 })
unfolding ksym_lookup best_from found_at
in_first = refl

ksym_lookup_lem_example : Looked 0x1044 table (ksym_lookup table 0x1044)
ksym_lookup_lem_example = ksym_lookup_lem table 0x1044 (omega arith, (omega arith, tt))
