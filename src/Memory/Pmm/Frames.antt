-- ===== src/Memory/Pmm/Frames.antt =====
-- `pmm_alloc_frame` and `pmm_free_frame` of src/memory/pmm.c.
use frog_kernel.Base.{
  ℕ, zero, suc, ◌+◌, ◌-◌, ◌*◌, ◌/◌, ◌%◌, ◌^◌, ◌<◌, ◌≤◌, ◌≡◌, ◌∙◌, ◌≢◌, refl, ◌⊎◌, inl, inr, true,
  false, not, ◌&&◌, ◌||◌, Option, none, some, leb, ◌==◌, arith, Bool-cases,
}
use mathlib.Core.Path.{subst}
use frog_kernel.Base.Store.{Array, Outcome, ok, panic}
use frog_kernel.Memory.Pmm.{
  Pmm, page_size, addr_to_page, bit_set, bit_clear, bit_test, find_free, alloc_frame, free_frame,
}
use frog_kernel.Memory.Pmm.Bits.{
  IsBytes, used, used-bit_set, used-bit_clear, bit_set-IsBytes, bit_clear-IsBytes,
}

-- The bitmap holds bytes and has a bit for each page, and a page's address is a uint32_t.
pub record IsValid (p : Pmm) : Type 0 where
  pub bytes : IsBytes p.bitmap
  pub covered : p.total_pages ≤ p.bitmap_size * 8
  pub addressable : p.total_pages ≤ 2 ^ 20

-- What the search finds: the first unused page of the range.
Found : Array ℕ → (n i : ℕ) → Option ℕ → Type 0
Found m n i none = (j : ℕ) → i ≤ j → j < i + n → used m j ≡ true
Found m n i (some k) =
    (i ≤ k) × (k < i + n) × (used m k ≡ false) × ((j : ℕ) → i ≤ j → j < k → used m j ≡ true)

Found-step :
    (m : Array ℕ) (n i : ℕ) (o : Option ℕ)
    → Found m n (i + 1) o
    → used m i ≡ true
    → Found m (suc n) i o
unfolding Found
Found-step m n i none all taken = λ j h k. ground (arith, all j)
Found-step m n i (some k) (lo, hi, free, all) taken =
    (omega arith, omega arith, free, λ j h l. ground (arith, all j))

find_free-Found : (m : Array ℕ) (n i : ℕ) → Found m n i (find_free m n i)
unfolding find_free Found used
find_free-Found m zero i = λ j h k. absurd (omega arith)
find_free-Found m (suc n) i = elim (Bool-cases (bit_test m i == 0)) [
  | inl free ↦
      rw (free, Found) (omega arith, omega arith, ground arith, λ j h k. absurd (omega arith))
  | inr taken ↦
      rw (taken, Found)
        (Found-step m n i (find_free m n (i + 1)) (find_free-Found m n (i + 1)) (ground arith))
]

-- What one allocation does.
pub record Allocated (p : Pmm) (a : ℕ) (p' : Pmm) : Type 0 where
  pub aligned : a ≡ a / page_size * page_size
  pub not_null : 1 ≤ a / page_size
  pub in_range : a / page_size < p.total_pages
  pub was_free : used p.bitmap (a / page_size) ≡ false
  pub lowest : (j : ℕ) → 1 ≤ j → j < a / page_size → used p.bitmap j ≡ true
  pub bits : (q : ℕ) → used p'.bitmap q ≡ (q == a / page_size || used p.bitmap q)
  pub total : p'.total_pages ≡ p.total_pages
  pub size : p'.bitmap_size ≡ p.bitmap_size

-- The two outcomes of `pmm_alloc_frame`.
abbrev pub Alloc : Pmm → Outcome (ℕ × Pmm) → Type 0
Alloc p panic = (j : ℕ) → 1 ≤ j → j < p.total_pages → used p.bitmap j ≡ true
Alloc p (ok (a, p')) = Allocated p a p' × IsValid p'

search-Alloc :
    (p : Pmm) (o : Option ℕ)
    → IsValid p
    → Found p.bitmap (p.total_pages - 1) 1 o
    → Alloc p (elim o [
      | none ↦ panic
      | some i ↦ ok (i * page_size % 2 ^ 32, record p { bitmap = bit_set p.bitmap i })
    ])
unfolding Found
search-Alloc p none v all = λ j h k. ground (arith, all j)
search-Alloc p (some i) v (lo, hi, free, all) =
    let page : i * page_size % 2 ^ 32 / page_size ≡ i = omega (arith, v.addressable) in
    (
      record {
        aligned = omega (arith, v.addressable);
        not_null = omega arith;
        in_range = omega arith;
        was_free = rw page free;
        lowest = λ j h k. all j h (omega arith);
        bits = λ q. rw page (used-bit_set p.bitmap i q v.bytes);
        total = refl;
        size = refl;
      },
      record {
        bytes = bit_set-IsBytes p.bitmap i v.bytes;
        covered = v.covered;
        addressable = v.addressable;
      },
    )

-- On a valid bitmap `pmm_alloc_frame` panics only when pages 1 to `total_pages - 1` are all used.
-- Otherwise it returns the page-aligned address of the lowest free page among them, marks that page
-- and no other, and keeps the bitmap valid.
pub alloc_frame_lem : (p : Pmm) → IsValid p → Alloc p (alloc_frame p)
unfolding alloc_frame
alloc_frame_lem p v =
    search-Alloc p (find_free p.bitmap (p.total_pages - 1) 1) v
      (find_free-Found p.bitmap (p.total_pages - 1) 1)

clear_free :
    (p : Pmm) (k q : ℕ)
    → IsValid p
    → (bit_test p.bitmap k == 0) ≡ true
    → used (bit_clear p.bitmap k) q ≡ used p.bitmap q
clear_free p k q v free = used-bit_clear p.bitmap k q v.bytes ∙ still (Bool-cases (q == k))
  where
    clear : used p.bitmap k ≡ false
    clear = unfold used in ground arith

    still :
        ((q == k) ≡ true) ⊎ ((q == k) ≡ false) → (not (q == k) && used p.bitmap q) ≡ used p.bitmap q
    still (inl e) = ground (arith, clear)
    still (inr ne) = rw ne

-- The two outcomes of `pmm_free_frame`.
abbrev pub Free : Pmm → ℕ → Outcome Pmm → Type 0
Free p a panic =
    (a ≡ 0)
    ⊎ (a % page_size ≢ 0)
    ⊎ (p.total_pages ≤ a / page_size)
    ⊎ (used p.bitmap (a / page_size) ≡ true)
Free p a (ok p') =
    (a ≢ 0)
    × (a % page_size ≡ 0)
    × (a / page_size < p.total_pages)
    × (used p.bitmap (a / page_size) ≡ false)
    × ((q : ℕ) → used p'.bitmap q ≡ used p.bitmap q)
    × (p'.total_pages ≡ p.total_pages)
    × IsValid p'

-- `pmm_free_frame` panics on the null page, on an unaligned address, on a page past the end and on
-- every page that is in use. On a page that is free already it returns, and no page changes.
pub free_frame_lem : (p : Pmm) (a : ℕ) → IsValid p → Free p a (free_frame p a)
unfolding free_frame used
free_frame_lem p a v = elim (Bool-cases (a == 0)) [
  | inl null ↦ rw null (inl (ground arith))
  | inr some_page ↦ rw some_page (elim (Bool-cases (a % page_size == 0)) [
    | inr odd ↦ rw odd (inr (inl (ground arith)))
    | inl whole ↦ rw whole (elim (Bool-cases (leb p.total_pages (addr_to_page a))) [
      | inl past ↦ rw past (inr (inr (inl (ground arith))))
      | inr inside ↦ rw inside (elim (Bool-cases (bit_test p.bitmap (addr_to_page a) == 0)) [
        | inr taken ↦ rw taken (inr (inr (inr (ground arith))))
        | inl free ↦ rw free (
          ground arith,
          ground arith,
          ground arith,
          ground arith,
          λ q. clear_free p (a / page_size) q v free,
          refl,
          record {
            bytes = bit_clear-IsBytes p.bitmap (a / page_size) v.bytes;
            covered = v.covered;
            addressable = v.addressable;
          },
        )
      ])
    ])
  ])
]

pub alloc_ok :
    (p : Pmm) {p' : Pmm} {a : ℕ}
    → IsValid p
    → alloc_frame p ≡ ok (a, p')
    → Allocated p a p' × IsValid p'
alloc_ok p v e = subst (Alloc p) e (alloc_frame_lem p v)

-- `pmm_free_frame` panics on every frame that `pmm_alloc_frame` has just returned.
pub free_frame-alloc_frame :
    (p : Pmm) {p' : Pmm} {a : ℕ} → IsValid p → alloc_frame p ≡ ok (a, p') → free_frame p' a ≡ panic
free_frame-alloc_frame p {p'} {a} v e =
    refuse (free_frame p' a) (alloc_ok p v e) (free_frame_lem p' a)
  where
    refuse :
        (o : Outcome Pmm) → Allocated p a p' × IsValid p' → (IsValid p' → Free p' a o) → o ≡ panic
    refuse panic al fr = refl
    refuse (ok p'') (al, v') fr = absurd (ground (arith, (fr v').3, al.bits (a / page_size)))
