-- ===== src/Memory/Heap/Merge.antt =====
-- Blocks that are joined with a free neighbour, in `kfree` of src/memory/kheap.c.
use mathlib.Core.Path.{subst}
use frog_kernel.Base.{
  ℕ, ◌+◌, ◌%◌, ◌^◌, ◌<◌, ◌≡◌, ◌∙◌, refl, sym, ap, Bool, true, false, not, Option, none, some, ◌==◌,
  if◌then◌else◌, List, [], ◌∷◌, arith, Bool-cases, inl, inr,
}
use frog_kernel.Memory.Heap.{Block, header, header_size, used_block, absorb, join_next, join_prev}
use frog_kernel.Memory.Heap.Blocks.{Ordered, Ordered-le, Ordered-from, used, used-free, Inserted}

-- A block and the one behind it as one block.
absorb-Ordered :
    (start end_ : ℕ) (b c : Block) (bs : List Block)
    → end_ < 2 ^ 32
    → Ordered start end_ (b ∷ c ∷ bs)
    → Ordered start end_ (absorb b c ∷ bs)
absorb-Ordered start end_ b c bs e (lo, (mid, o)) = (
  lo,
  Ordered-from (c.addr + c.size) (b.addr + (b.size + header_size + c.size) % 2 ^ 32) end_ bs
      (omega (arith, Ordered-le (c.addr + c.size) end_ bs o)) o,
)

pub join_next-Ordered :
    (start end_ : ℕ) (b : Block) (bs : List Block)
    → end_ < 2 ^ 32
    → Ordered start end_ (b ∷ bs)
    → Ordered start end_ (join_next b bs)
unfolding join_next
join_next-Ordered start end_ b [] e o = o
join_next-Ordered start end_ b (c ∷ bs) e o = elim (Bool-cases c.free) [
  | inl free ↦
      subst (λ t. Ordered start end_ (if t then absorb b c ∷ bs else b ∷ c ∷ bs)) (sym free)
        (absorb-Ordered start end_ b c bs e o)
  | inr given ↦
      subst (λ t. Ordered start end_ (if t then absorb b c ∷ bs else b ∷ c ∷ bs)) (sym given) o
]

pub join_next-used : (b : Block) (bs : List Block) → b.free ≡ true → used (join_next b bs) ≡ used bs
unfolding join_next
join_next-used b [] free = used-free b [] free
join_next-used b (c ∷ bs) free = elim (Bool-cases c.free) [
  | inl next ↦
      ap (λ t. used (if t then absorb b c ∷ bs else b ∷ c ∷ bs)) next
      ∙ used-free (absorb b c) bs free
      ∙ sym (used-free c bs next)
  | inr given ↦
      ap (λ t. used (if t then absorb b c ∷ bs else b ∷ c ∷ bs)) given ∙ used-free b (c ∷ bs) free
]

-- The list starts with a free block.
abbrev FreeFirst : List Block → Type 0
FreeFirst [] = Unit
FreeFirst (b ∷ bs) = b.free ≡ true

pub join_next-FreeFirst : (b : Block) (bs : List Block) → b.free ≡ true → FreeFirst (join_next b bs)
unfolding join_next
join_next-FreeFirst b [] free = free
join_next-FreeFirst b (c ∷ bs) free = elim (Bool-cases c.free) [
  | inl next ↦ subst (λ t. FreeFirst (if t then absorb b c ∷ bs else b ∷ c ∷ bs)) (sym next) free
  | inr given ↦ subst (λ t. FreeFirst (if t then absorb b c ∷ bs else b ∷ c ∷ bs)) (sym given) free
]

pub join_prev_lem :
    (start end_ : ℕ) (p : Block) (bs : List Block)
    → end_ < 2 ^ 32
    → FreeFirst bs
    → Ordered start end_ (p ∷ bs)
    → Ordered start end_ (join_prev p bs).0 × (used (join_prev p bs).0 ≡ used (p ∷ bs))
unfolding join_prev
join_prev_lem start end_ p [] e f o = (o, refl)
join_prev_lem start end_ p (b ∷ bs) e f o = elim (Bool-cases p.free) [
  | inl free ↦
      subst (λ t. Ordered start end_ (pick t).0 × (used (pick t).0 ≡ used (p ∷ b ∷ bs))) (sym free)
        (
          absorb-Ordered start end_ p b bs e o,
          used-free (absorb p b) bs free ∙ sym (used-free b bs f) ∙ sym (used-free p (b ∷ bs) free),
        )
  | inr given ↦
      subst (λ t. Ordered start end_ (pick t).0 × (used (pick t).0 ≡ used (p ∷ b ∷ bs))) (sym given)
        (o, refl)
]
  where
    pick : Bool → List Block × ℕ
    pick t = if t then (absorb p b ∷ bs, header p) else (p ∷ b ∷ bs, header b)

-- A block that is given out has the address.
unfoldable pub in_use : (addr : ℕ) → List Block → Bool
in_use addr [] = false
in_use addr (b ∷ bs) = let rest = in_use addr bs in if b.addr == addr then not b.free else rest

-- A block that was freed: the blocks stay in order, and the block is the only one that has gone from
-- those that are given out.
abbrev pub Freed :
    (start end_ addr : ℕ) → (found : Bool) → List Block → Option (List Block × ℕ) → Type 0
Freed start end_ addr t bs none = t ≡ false
Freed start end_ addr t bs (some r) =
    (t ≡ true)
    × Ordered start end_ r.0
    × (n : ℕ) × Inserted (used_block addr n) (used r.0) (used bs)
