-- ===== src/Memory/Mmap/Tag.antt =====
-- `mmap_init` of src/memory/mmap.c from the loader's data on: the memory map tag and its entries.
use mathlib.Core.Path.{subst}
use frog_kernel.Base.{
  ℕ, zero, suc, ◌+◌, ◌*◌, ◌%◌, ◌^◌, ◌<◌, ◌≤◌, ◌≡◌, ◌≢◌, refl, ap, ◌∙◌, Option, none, some, List, [],
  ◌∷◌, ◌==◌, if◌then◌else◌, length, arith, ltb, true, false,
}
use frog_kernel.Base.Store.{Array, Outcome, ok, panic}
use frog_kernel.Memory.Tags.{tag_type_mmap, find_tag, Tags, of_type, find_tag_lem}
use frog_kernel.Memory.Mmap.{Entry, Mmap, mmap_init}

-- `mb2_mmap_entry_t` at an address.
abbrev pub entry_at : (word : Array ℕ) → (p : ℕ) → Entry
entry_at word p = record {
  base_addr = word p + 2 ^ 32 * word (p + 4);
  length = word (p + 8) + 2 ^ 32 * word (p + 12);
  type = word (p + 16);
}

abbrev pub cons_entry : Entry → Option (List Entry) → Option (List Entry)
cons_entry e none = none
cons_entry e (some es) = some (e ∷ es)

-- The entries that `entry_ptr` meets. `none`: the fuel is used up, as it is if the size is 0.
unfoldable pub entries_from : (word : Array ℕ) → (entry_size end_ fuel p : ℕ) → Option (List Entry)
entries_from word size end_ zero p = none
entries_from word size end_ (suc f) p =
    let rest = entries_from word size end_ f ((p + size) % 2 ^ 32) in
    if ltb p end_ then cons_entry (entry_at word p) rest else some []

-- The map of the tag at an address, or a panic if there is none.
unfoldable pub map_of_tag : (word : Array ℕ) → (fuel tag : ℕ) → Option (Outcome Mmap)
unfolding entries_from
map_of_tag word fuel tag =
    if tag == 0
    then some panic
    else elim (entries_from word (word (tag + 8)) ((tag + word (tag + 4)) % 2 ^ 32) fuel
        (tag + 16)) [ none ↦ none | some es ↦ some (ok (mmap_init es)) ]

unfoldable pub mmap_init_from : (word : Array ℕ) → (fuel mb2_info : ℕ) → Option (Outcome Mmap)
unfolding map_of_tag
mmap_init_from word fuel mb2_info = elim (find_tag word tag_type_mmap fuel (mb2_info + 8)) [
  | none ↦ none
  | some tag ↦ map_of_tag word fuel tag
]

-- `n` entries, one behind the other.
unfoldable pub entries_at : (word : Array ℕ) → (entry_size n p : ℕ) → List Entry
entries_at word size zero p = []
entries_at word size (suc n) p = entry_at word p ∷ entries_at word size n (p + size)

-- The bytes that `n` entries take.
abbrev pub span : (entry_size n : ℕ) → ℕ
span size zero = 0
span size (suc n) = size + span size n

-- If entries of a size that is not 0 fill the tag below 2^32, the loop meets each of them within a
-- round for each and one more.
entries_from_lem :
    (word : Array ℕ) (size n fuel p : ℕ)
    → 1 ≤ size
    → n < fuel
    → p + span size n < 2 ^ 32
    → entries_from word size (p + span size n) fuel p ≡ some (entries_at word size n p)
unfolding entries_from entries_at
entries_from_lem word size n zero p one h k = absurd (omega arith)
entries_from_lem word size zero (suc f) p one h k = ground arith
entries_from_lem word size (suc n) (suc f) p one h k =
    rw (below, next)
      (ap (cons_entry (entry_at word p))
        (rest (entries_from_lem word size n f (p + size) one (omega arith) (omega (arith, k)))))
  where
    below : ltb p (p + (size + span size n)) ≡ true
    below = ground (arith, one)

    next : (p + size) % 2 ^ 32 ≡ p + size
    next = omega (arith, k)

    rest :
        entries_from word size (p + size + span size n) f (p + size)
          ≡ some (entries_at word size n (p + size))
        → entries_from word size (p + (size + span size n)) f (p + size)
          ≡ some (entries_at word size n (p + size))
    rest h =
        subst
          (λ e. entries_from word size e f (p + size) ≡ some (entries_at word size n (p + size)))
          (omega arith) h

-- `mmap_init` on a loader's data whose first memory map tag is filled by its entries, up to an
-- address below 2^32: it builds the map of those entries.
pub mmap_init_from_lem :
    (word : Array ℕ) (fuel mb2_info n : ℕ) (ts : List ℕ)
    → Tags word (mb2_info + 8) ts
    → length ts < fuel
    → n < fuel
    → (let tag = of_type word tag_type_mmap ts in
        tag ≢ 0
        → 1 ≤ word (tag + 8)
        → tag + word (tag + 4) ≡ tag + 16 + span (word (tag + 8)) n
        → tag + word (tag + 4) < 2 ^ 32
        → mmap_init_from word fuel mb2_info
          ≡ some (ok (mmap_init (entries_at word (word (tag + 8)) n (tag + 16)))))
unfolding mmap_init_from map_of_tag
mmap_init_from_lem word fuel mb2_info n ts c h k nz one filled small =
    rw (mmap_init_from, find_tag_lem word tag_type_mmap fuel (mb2_info + 8) ts c h, there, entries)
      refl
  where
    tag : ℕ
    tag = of_type word tag_type_mmap ts

    size : ℕ
    size = word (tag + 8)

    there : (tag == 0) ≡ false
    there = ground (arith, nz)

    end_ : (tag + word (tag + 4)) % 2 ^ 32 ≡ tag + 16 + span size n
    end_ = omega (arith, small, filled)

    entries :
        entries_from word size ((tag + word (tag + 4)) % 2 ^ 32) fuel (tag + 16)
        ≡ some (entries_at word size n (tag + 16))
    entries =
        ap (λ e. entries_from word size e fuel (tag + 16)) end_
        ∙ entries_from_lem word size n fuel (tag + 16) one k (omega (arith, filled, small))
