-- ===== src/Memory/Heap/Blocks.antt =====
-- The blocks of the heap of src/memory/kheap.c: they lie in order without overlap.
use frog_kernel.Base.{
  ℕ, ◌+◌, ◌%◌, ◌^◌, ◌≤◌, ◌<◌, ◌≡◌, ◌∙◌, refl, ap, Bool, true, false, ◌&&◌, ◌||◌, Option, none, some,
  leb, ◌==◌, if◌then◌else◌, List, [], ◌∷◌, ◌++◌, arith, Bool-cases, inl, inr,
}
use frog_kernel.Memory.Heap.{
  Block, header, header_size, used_block, behind, find_fit, Fit, cons_fit,
}

-- From `start` to `end_`, each block behind its header.
abbrev pub Ordered : (start end_ : ℕ) → List Block → Type 0
Ordered start end_ [] = start ≤ end_
Ordered start end_ (b ∷ bs) = (start + header_size ≤ b.addr) × Ordered (b.addr + b.size) end_ bs

pub Ordered-le : (start end_ : ℕ) (bs : List Block) → Ordered start end_ bs → start ≤ end_
Ordered-le start end_ [] h = h
Ordered-le start end_ (b ∷ bs) (h, k) = omega (arith, Ordered-le (b.addr + b.size) end_ bs k)

pub Ordered-from :
    (start lower end_ : ℕ) (bs : List Block)
    → lower ≤ start
    → Ordered start end_ bs
    → Ordered lower end_ bs
Ordered-from start lower end_ [] le h = omega arith
Ordered-from start lower end_ (b ∷ bs) le (h, k) = (omega arith, k)

-- The blocks that are given out, in order.
unfoldable pub used : List Block → List Block
used [] = []
used (b ∷ bs) = let rest = used bs in if b.free then rest else b ∷ rest

-- `new` is a list with one block more than `old`.
abbrev pub Inserted : Block → (old new : List Block) → Type 0
Inserted b old new = (xs : List Block) × (ys : List Block) × (old ≡ xs ++ ys) × (new ≡ xs ++ b ∷ ys)

behind-used : (b : Block) (size : ℕ) (bs : List Block) → used (behind b size bs) ≡ used bs
unfolding behind used
behind-used b size bs = ground arith

behind-Ordered :
    (start end_ size : ℕ) (b : Block) (bs : List Block)
    → 0 < start
    → end_ < 2 ^ 32
    → start + header_size ≤ b.addr
    → size ≤ b.size
    → Ordered (b.addr + b.size) end_ bs
    → Ordered (b.addr + size) end_ (behind b size bs)
unfolding behind
behind-Ordered start end_ size b bs h e lo fits k =
    elim (Bool-cases (leb ((size + header_size + 1) % 2 ^ 32) b.size)) [
      | inl split ↦ rw split (
        ground (arith, top, split),
        Ordered-from (b.addr + b.size) _ end_ bs (ground (arith, top, split)) k,
      )
      | inr whole ↦
          rw whole (Ordered-from (b.addr + b.size) (b.addr + size) end_ bs (omega arith) k)
    ]
  where
    top : b.addr + b.size ≤ end_
    top = Ordered-le (b.addr + b.size) end_ bs k

-- A block that was found: the blocks stay in order, and one more is given out, of the size asked for.
abbrev pub Placed : (start end_ size : ℕ) → List Block → Option Fit → Type 0
Placed start end_ size bs none = Unit
Placed start end_ size bs (some f) =
    Ordered start end_ f.blocks × Inserted (used_block f.addr size) (used bs) (used f.blocks)

pub used-free : (b : Block) (bs : List Block) → b.free ≡ true → used (b ∷ bs) ≡ used bs
unfolding used
used-free b bs free = rw free refl

pub used-given : (b : Block) (bs : List Block) → b.free ≡ false → used (b ∷ bs) ≡ b ∷ used bs
unfolding used
used-given b bs given = rw given refl

Inserted-cons :
    (new b : Block) (bs cs : List Block)
    → Inserted new (used bs) (used cs)
    → Inserted new (used (b ∷ bs)) (used (b ∷ cs))
Inserted-cons new b bs cs (xs, ys, e, f) = elim (Bool-cases b.free) [
  | inl free ↦ (xs, ys, used-free b bs free ∙ e, used-free b cs free ∙ f)
  | inr given ↦ (
    b ∷ xs,
    ys,
    used-given b bs given ∙ ap (λ q. b ∷ q) e,
    used-given b cs given ∙ ap (λ q. b ∷ q) f,
  )
]

Placed-cons :
    (start end_ size : ℕ) (b : Block) (bs : List Block) (o : Option Fit)
    → start + header_size ≤ b.addr
    → Placed (b.addr + b.size) end_ size bs o
    → Placed start end_ size (b ∷ bs) (elim o [ none ↦ none | some f ↦ some (cons_fit b f) ])
Placed-cons start end_ size b bs none h p = tt
Placed-cons start end_ size b bs (some f) h (o, i) =
    ((h, o), Inserted-cons (used_block f.addr size) b bs f.blocks i)

carve-Inserted :
    (size : ℕ) (b : Block) (bs : List Block)
    → b.free ≡ true
    → Inserted
        (used_block b.addr size)
        (used (b ∷ bs))
        (used (used_block b.addr size ∷ behind b size bs))
carve-Inserted size b bs free = (
  [],
  used bs,
  used-free b bs free,
  used-given (used_block b.addr size) (behind b size bs) refl
      ∙ ap (λ q. used_block b.addr size ∷ q) (behind-used b size bs),
)

pub find_fit_lem :
    (start end_ fh size : ℕ) (started : Bool) (bs : List Block)
    → 0 < start
    → end_ < 2 ^ 32
    → Ordered start end_ bs
    → Placed start end_ size bs (find_fit fh size started bs)
unfolding find_fit
find_fit_lem start end_ fh size started [] h e o = tt
find_fit_lem start end_ fh size started (b ∷ bs) h e (lo, o) =
    elim (Bool-cases ((started || header b == fh) && (b.free && leb size b.size))) [
      | inl found ↦ rw found (
        (lo, behind-Ordered start end_ size b bs h e lo (fits found) o),
        carve-Inserted size b bs (is_free found),
      )
      | inr other ↦ rw other (
          Placed-cons start end_ size b bs (find_fit fh size (started || header b == fh) bs) lo (
            find_fit_lem (b.addr + b.size) end_ fh size (started || header b == fh) bs (omega arith)
              e o))
    ]
  where
    fits : ((started || header b == fh) && (b.free && leb size b.size)) ≡ true → size ≤ b.size
    fits q = ground (arith, q)

    is_free : ((started || header b == fh) && (b.free && leb size b.size)) ≡ true → b.free ≡ true
    is_free q = ground (arith, q)
