-- ===== src/Memory/Tags.antt =====
-- The tags that the loader leaves, src/multiboot.h, and the walk to the first of a type, which
-- src/memory/mmap.c and src/initrd/initrd.c make. `word` gives the word at an address.
use frog_kernel.Base.{
  ℕ, zero, suc, ◌+◌, ◌/◌, ◌*◌, ◌%◌, ◌^◌, ◌<◌, ◌≡◌, Option, none, some, List, [], ◌∷◌, ◌==◌,
  if◌then◌else◌, length, arith, false,
}
use frog_kernel.Base.Store.{Array}

abbrev pub tag_type_module : ℕ
tag_type_module = 3

abbrev pub tag_type_mmap : ℕ
tag_type_mmap = 6

-- `((uint32_t)tag + tag->size + 7) & ~7`
unfoldable pub next_tag : (word : Array ℕ) → (tag : ℕ) → ℕ
next_tag word tag = (tag + word (tag + 4) + 7) % 2 ^ 32 / 8 * 8

-- The address of the first tag of a type, or 0. `none`: the fuel is used up.
unfoldable pub find_tag : (word : Array ℕ) → (type fuel tag : ℕ) → Option ℕ
find_tag word type zero tag = none
find_tag word type (suc f) tag =
    let later = find_tag word type f (next_tag word tag) in
    if word tag == 0 then some 0 else if word tag == type then some tag else later

-- The tags from an address on, up to the one that ends them.
abbrev pub Tags : (word : Array ℕ) → (tag : ℕ) → List ℕ → Type 0
Tags word tag [] = word tag ≡ 0
Tags word tag (t ∷ ts) = (tag ≡ t) × ((word tag == 0) ≡ false) × Tags word (next_tag word tag) ts

-- The first tag of a list that has the type, or 0.
unfoldable pub of_type : (word : Array ℕ) → (type : ℕ) → List ℕ → ℕ
of_type word type [] = 0
of_type word type (t ∷ ts) = let rest = of_type word type ts in if word t == type then t else rest

-- The walk ends within a round for each tag and one more, at the first tag of the type, or without
-- one.
pub find_tag_lem :
    (word : Array ℕ) (type fuel tag : ℕ) (ts : List ℕ)
    → Tags word tag ts
    → length ts < fuel
    → find_tag word type fuel tag ≡ some (of_type word type ts)
unfolding find_tag of_type
find_tag_lem word type zero tag ts c h = absurd (omega arith)
find_tag_lem word type (suc f) tag [] c h = ground (arith, c)
find_tag_lem word type (suc f) tag (t ∷ ts) (e, nz, c) h =
    ground (arith, e, nz, find_tag_lem word type f (next_tag word tag) ts c (omega arith))
