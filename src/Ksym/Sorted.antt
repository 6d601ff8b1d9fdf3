-- ===== src/Ksym/Sorted.antt =====
-- `ksym_lookup` of src/ksym/ksym.c on a table in the order of the addresses.
use mathlib.Core.Option
use frog_kernel.Base.{
  ℕ, zero, suc, ◌+◌, ◌-◌, ◌<◌, ◌≤◌, ◌≡◌, inl, inr, refl, false, Bool-cases, Option, none, some,
  List, [], ◌∷◌, ltb, ◌==◌, if◌then◌else◌, length, get_elem?, arith,
}
use frog_kernel.Ksym.{Symbol, best_from, Found, size_of, found_at, ksym_lookup}

-- The addresses do not fall, and none is below `lo`.
abbrev pub Sorted : (lo : ℕ) → List Symbol → Type 0
Sorted lo [] = Unit
Sorted lo (s ∷ ss) = (lo ≤ s.addr) × Sorted s.addr ss

-- The symbols at or below an address, counted.
abbrev pub below : (eip : ℕ) → List Symbol → ℕ
below eip [] = 0
below eip (s ∷ ss) = (if ltb eip s.addr then 0 else 1) + below eip ss

above_none : (eip lo : ℕ) (ss : List Symbol) → Sorted lo ss → eip < lo → below eip ss ≡ 0
above_none eip lo [] so h = refl
above_none eip lo (s ∷ ss) (le, so) h = ground (arith, le, h, above_none eip s.addr ss so)

-- The result of the search is the last of the symbols at or below the address.
best_from_lem :
    (eip i lo : ℕ) (best : Option ℕ) (ss : List Symbol)
    → Sorted lo ss
    → best_from eip i best ss ≡ (if below eip ss == 0 then best else some (i + below eip ss - 1))
unfolding best_from
best_from_lem eip i lo best [] so = refl
best_from_lem eip i lo best (s ∷ ss) (le, so) =
    ground (arith, best_from_lem eip (i + 1) s.addr (some i) ss so, above_none eip s.addr ss so)

-- The symbols at or below the address come first.
place :
    (eip lo j : ℕ) (ss : List Symbol) (t : Symbol)
    → Sorted lo ss
    → get_elem? ss j ≡ some t
    → (j < below eip ss → t.addr ≤ eip) × (below eip ss ≤ j → eip < t.addr) × (lo ≤ t.addr)
place eip lo j [] t so e = absurd (Option.none-ne-some t e)
place eip lo zero (s ∷ ss) t (le, so) e = (
  λ h. ground (arith, e, above_none eip s.addr ss so, h),
  λ h. ground (arith, e, h),
  ground (arith, e, le),
)
place eip lo (suc j) (s ∷ ss) t (le, so) e =
    let (a, b, c) = place eip s.addr j ss t so e in
    (
      λ h. ground (arith, a, h, above_none eip s.addr ss so),
      λ h. ground (arith, b, c, h),
      omega arith,
    )

member : (j : ℕ) (ss : List Symbol) → j < length ss → (t : Symbol) × (get_elem? ss j ≡ some t)
member j [] h = absurd (omega arith)
member zero (s ∷ ss) h = (s, refl)
member (suc j) (s ∷ ss) h = member j ss (omega arith)

below-length : (eip : ℕ) (ss : List Symbol) → below eip ss ≤ length ss
below-length eip [] = omega arith
below-length eip (s ∷ ss) = ground (arith, below-length eip ss)

-- What `ksym_lookup` promises: it fails only if every symbol lies above the address; else it gives
-- the last symbol that does not, how far the address lies behind it, and how far the next one.
abbrev pub Looked : (eip : ℕ) → List Symbol → Option Found → Type 0
Looked eip table none = (j : ℕ) (t : Symbol) → get_elem? table j ≡ some t → eip < t.addr
Looked eip table (some f) =
    (i : ℕ) × (s : Symbol) × (get_elem? table i ≡ some s)
    × (f.name ≡ s.name)
    × (f.offset + s.addr ≡ eip)
    × (f.size ≡ size_of s.addr (get_elem? table (i + 1)))
    × ((j : ℕ) (t : Symbol) → i < j → get_elem? table j ≡ some t → eip < t.addr)

-- If the table is in the order of the addresses, `ksym_lookup` gives the last symbol at or below the
-- address, with the offset of the address from it and the distance to the next symbol, 0 if there is
-- none; it gives "??" exactly if every symbol lies above the address.
pub ksym_lookup_lem :
    (table : List Symbol) (eip : ℕ) → Sorted 0 table → Looked eip table (ksym_lookup table eip)
unfolding ksym_lookup found_at
ksym_lookup_lem table eip so = elim (Bool-cases (below eip table == 0)) [
  | inl nothing ↦
      rw (Looked, best_from_lem eip 0 0 none table so, nothing)
        (λ j t e. (place eip 0 j table t so e).1 (ground (arith, nothing)))
  | inr some_below ↦
      let (s, e) =
        member (0 + below eip table - 1) table
          (omega (arith, below-length eip table, positive some_below)) in
      rw (Looked, best_from_lem eip 0 0 none table so, some_below, e)
        (
          0 + below eip table - 1,
          s,
          e,
          refl,
          omega
              (arith, (place eip 0 (0 + below eip table - 1) table s so e).0, positive some_below),
          refl,
          λ j t lt g. (place eip 0 j table t so g).1 (omega (arith, lt, positive some_below)),
        )
]
  where
    positive : (below eip table == 0) ≡ false → 1 ≤ below eip table
    positive h = ground (arith, h)
