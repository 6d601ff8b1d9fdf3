-- ===== src/Memory/Mmap/Regions.antt =====
-- What src/memory/mmap.c records of a memory map.
use mathlib.Core.List.{append-nil, append_assoc}
use frog_kernel.Base.{
  ℕ, zero, suc, ◌+◌, ◌-◌, ◌%◌, ◌^◌, ◌≤◌, ◌<◌, min, ◌≡◌, refl, Bool, true, false, ◌&&◌, List, [],
  ◌∷◌, ◌++◌, ltb, ◌==◌, if◌then◌else◌, length, take, length-append, arith, Bool-cases, inl, inr,
}
use frog_kernel.Memory.Mmap.{
  Entry, Region, Mmap, max_mem_regions, clipped, add_entry, add_entries, mmap_init,
}

-- The entry does not pass the end of the 64-bit address space.
abbrev pub Fits : Entry → Type 0
Fits e = e.base_addr + e.length ≤ 2 ^ 64 - 1

-- A region lies below 4 GiB.
abbrev pub Below : Region → Type 0
Below r = r.base + r.length ≤ 2 ^ 32

abbrev pub Each {ℓ κ} : {A : Type ℓ} → (A → Type κ) → List A → Type κ
Each P [] = Unit
Each P (a ∷ rest) = Each P rest × P a

Each-snoc {ℓ κ} :
    {A : Type ℓ} (P : A → Type κ) (front : List A) {last : A}
    → Each P front
    → P last
    → Each P (front ++ last ∷ [])
Each-snoc P [] done p = (done, p)
Each-snoc P (a ∷ front) (rest, q) p = (Each-snoc P front rest p, q)

clipped-Below :
    (e : Entry) → Fits e → e.base_addr < 0x100000000 → e.base_addr % 2 ^ 32 + clipped e ≤ 2 ^ 32
unfolding clipped
clipped-Below e f h = ground arith

pub record IsValid (m : Mmap) : Type 0 where
  pub regions : Each Below m.usable_regions
  pub count : length m.usable_regions ≤ max_mem_regions

add_entry-IsValid : (m : Mmap) (e : Entry) → Fits e → IsValid m → IsValid (add_entry m e)
unfolding add_entry
add_entry-IsValid m e f v = elim (Bool-cases (ltb e.base_addr 0x100000000)) [
  | inr above ↦ rw above v
  | inl below ↦
      rw below (elim (Bool-cases (e.type == 1 && ltb (length m.usable_regions) max_mem_regions)) [
        | inr skip ↦ rw skip (record { regions = v.regions; count = v.count })
        | inl keep ↦ rw keep (record {
          regions = Each-snoc Below m.usable_regions v.regions (clipped-Below e f (ground arith));
          count = ground (
            arith,
            length-append {0} m.usable_regions
                (record { base = e.base_addr % 2 ^ 32; length = clipped e } ∷ []),
          );
        })
      ])
]

add_entries-IsValid :
    (es : List Entry) (m : Mmap) → Each Fits es → IsValid m → IsValid (add_entries m es)
unfolding add_entries
add_entries-IsValid [] m f v = v
add_entries-IsValid (e ∷ es) m (fs, f) v =
    add_entries-IsValid es (add_entry m e) fs (add_entry-IsValid m e f v)

-- The entry is usable memory below 4 GiB.
unfoldable pub usable : Entry → Bool
usable e = ltb e.base_addr 0x100000000 && e.type == 1

-- The part of an entry that lies below 4 GiB, and the regions and bytes that a map offers.
unfoldable pub below_4g : Entry → ℕ
below_4g e = (min (e.base_addr + e.length) 0x100000000 - e.base_addr) % 2 ^ 32

unfoldable pub regions_of : List Entry → List Region
regions_of [] = []
regions_of (e ∷ es) =
    if usable e
    then record { base = e.base_addr; length = below_4g e } ∷ regions_of es
    else regions_of es

unfoldable pub bytes_of : List Entry → ℕ
bytes_of [] = 0
bytes_of (e ∷ es) = below_4g e + bytes_of es

clipped-eq : (e : Entry) → Fits e → e.base_addr < 0x100000000 → clipped e ≡ below_4g e
unfolding clipped below_4g
clipped-eq e f h = ground arith

below_4g-zero : (e : Entry) → 0x100000000 ≤ e.base_addr → below_4g e ≡ 0
unfolding below_4g
below_4g-zero e h = ground arith

total-add_entry :
    (m : Mmap) (e : Entry)
    → Fits e
    → m.total_memory < 2 ^ 32
    → (add_entry m e).total_memory ≡ (m.total_memory + below_4g e) % 2 ^ 32
unfolding add_entry
total-add_entry m e f h = elim (Bool-cases (ltb e.base_addr 0x100000000)) [
  | inr above ↦ rw above (omega (arith, below_4g-zero e (ground arith)))
  | inl below ↦ rw below (omega (arith, clipped-eq e f (ground arith)))
]

total-add_entries :
    (es : List Entry) (m : Mmap)
    → Each Fits es
    → m.total_memory < 2 ^ 32
    → (add_entries m es).total_memory ≡ (m.total_memory + bytes_of es) % 2 ^ 32
unfolding add_entries bytes_of
total-add_entries [] m f h = omega arith
total-add_entries (e ∷ es) m (fs, f) h =
    let step = total-add_entry m e f h in
    omega (arith, total-add_entries es (add_entry m e) fs (omega arith))

take-append-cons :
    (n : ℕ) (rs : List Region) (r : Region) (ss : List Region)
    → length rs < n
    → take (n - length rs) (r ∷ ss) ≡ r ∷ take (n - length (rs ++ r ∷ [])) ss
take-append-cons n rs r ss h =
    let e : n - length rs ≡ suc (n - length (rs ++ r ∷ [])) =
      omega (arith, length-append {0} rs (r ∷ [])) in
    rw e

take-nil : (n : ℕ) → take {A = Region} n [] ≡ []
take-nil zero = refl
take-nil (suc n) = refl

take-zero : (n : ℕ) (ss : List Region) → n ≡ 0 → take n ss ≡ []
take-zero zero ss h = refl
take-zero (suc n) ss h = absurd (omega arith)

regions-skip :
    (m : Mmap) (e : Entry)
    → (usable e && ltb (length m.usable_regions) max_mem_regions) ≡ false
    → (add_entry m e).usable_regions ≡ m.usable_regions
unfolding usable add_entry
regions-skip m e h = ground arith

regions-add :
    (m : Mmap) (e : Entry)
    → Fits e
    → usable e ≡ true
    → length m.usable_regions < max_mem_regions
    → (add_entry m e).usable_regions
      ≡ m.usable_regions ++ record { base = e.base_addr; length = below_4g e } ∷ []
unfolding usable add_entry
regions-add m e f u h = ground (arith, clipped-eq e f)

regions-add_entries :
    (es : List Entry) (m : Mmap)
    → Each Fits es
    → length m.usable_regions ≤ max_mem_regions
    → (add_entries m es).usable_regions
      ≡ m.usable_regions ++ take (max_mem_regions - length m.usable_regions) (regions_of es)
unfolding add_entries regions_of
regions-add_entries [] m f h = rw (take-nil, append-nil)
regions-add_entries (e ∷ es) m (fs, f) h = elim (Bool-cases (usable e)) [
  | inr no_use ↦
      let same = regions-skip m e (ground arith) in
      rw (regions-add_entries es (add_entry m e) fs (rw same h), same, no_use)
  | inl fits ↦ elim (Bool-cases (ltb (length m.usable_regions) max_mem_regions)) [
    | inr full ↦
        let same = regions-skip m e (ground arith) in
        let none_left : max_mem_regions - length m.usable_regions ≡ 0 = ground arith in
        rw (regions-add_entries es (add_entry m e) fs (rw same h), same, none_left)
    | inl room ↦
        let more = regions-add m e f fits (ground arith) in
        let r : Region = record { base = e.base_addr; length = below_4g e } in
        rw (
          regions-add_entries es (add_entry m e) fs
              (rw more (ground (arith, length-append {0} m.usable_regions (r ∷ [])))),
          more,
          fits,
          take-append-cons max_mem_regions m.usable_regions r (regions_of es) (ground arith),
          append_assoc,
        )
  ]
]

-- On a memory map of which no entry passes the end of the address space, `mmap_init` records the
-- first 32 of the usable regions below 4 GiB, each clipped at 4 GiB, in order, and no other. The
-- total is the sum of the clipped lengths of all entries, usable or not, modulo 2 ^ 32.
pub mmap_init_lem :
    (es : List Entry)
    → Each Fits es
    → ((mmap_init es).usable_regions ≡ take max_mem_regions (regions_of es))
      × ((mmap_init es).total_memory ≡ bytes_of es % 2 ^ 32)
unfolding mmap_init
mmap_init_lem es f = (
  regions-add_entries es (record { usable_regions = []; total_memory = 0 }) f (omega arith),
  omega (
    arith,
    total-add_entries es (record { usable_regions = []; total_memory = 0 }) f (omega arith),
  ),
)

-- Every region that `mmap_init` records lies below 4 GiB, and there are at most 32.
pub mmap_init-IsValid : (es : List Entry) → Each Fits es → IsValid (mmap_init es)
unfolding mmap_init
mmap_init-IsValid es f =
    add_entries-IsValid es (record { usable_regions = []; total_memory = 0 }) f
      (record { regions = tt; count = omega arith })
