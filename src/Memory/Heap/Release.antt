-- ===== src/Memory/Heap/Release.antt =====
-- `kfree` of src/memory/kheap.c on a heap whose blocks are in order.
use mathlib.Core.Path.{subst}
use frog_kernel.Base.{
  ℕ, ◌+◌, ◌^◌, ◌≤◌, ◌<◌, ◌≡◌, ◌≢◌, ◌∙◌, ◌⊎◌, refl, sym, ap, Bool, true, false, not, Option, none,
  some, ◌==◌, if◌then◌else◌, List, [], ◌∷◌, arith, Bool-cases, inl, inr,
}
use frog_kernel.Memory.Heap.{
  Block, Heap, header, header_size, used_block, join_next, join_prev, mark_free, free_at,
  free_blocks, released, kfree, has_block,
}
use frog_kernel.Memory.Heap.Blocks.{Ordered, used, used-free, used-given, Inserted}
use frog_kernel.Memory.Heap.Alloc.{IsValid}
use frog_kernel.Memory.Heap.Merge.{
  join_next-Ordered, join_next-used, join_next-FreeFirst, join_prev_lem, in_use, Freed,
}

Inserted-behind :
    (x p : Block) (bs cs : List Block)
    → Inserted x (used bs) (used cs)
    → Inserted x (used (p ∷ bs)) (used (p ∷ cs))
Inserted-behind x p bs cs (xs, ys, e, f) = elim (Bool-cases p.free) [
  | inl free ↦ (xs, ys, used-free p bs free ∙ e, used-free p cs free ∙ f)
  | inr given ↦ (
    p ∷ xs,
    ys,
    used-given p bs given ∙ ap (λ q. p ∷ q) e,
    used-given p cs given ∙ ap (λ q. p ∷ q) f,
  )
]

used_self :
    (b : Block) (bs : List Block)
    → b.free ≡ false
    → used (b ∷ bs) ≡ used_block b.addr b.size ∷ used bs
unfolding used
used_self b bs given = rw given refl

-- The block itself, freed and joined with what follows it.
Freed-Inserted :
    (b : Block) (bs : List Block)
    → b.free ≡ false
    → Inserted (used_block b.addr b.size) (used (join_next (mark_free b) bs)) (used (b ∷ bs))
Freed-Inserted b bs given =
    ([], used bs, join_next-used (mark_free b) bs refl, used_self b bs given)

Freed-cons :
    (start end_ addr : ℕ) (t : Bool) (p b : Block) (bs : List Block) (o : Option (List Block × ℕ))
    → start + header_size ≤ p.addr
    → Freed (p.addr + p.size) end_ addr t (b ∷ bs) o
    → Freed start end_ addr t (p ∷ b ∷ bs) (elim o [ none ↦ none | some r ↦ some (p ∷ r.0, r.1) ])
Freed-cons start end_ addr t p b bs none lo f = f
Freed-cons start end_ addr t p b bs (some r) lo (u, o, n, i) =
    (u, (lo, o), n, Inserted-behind (used_block addr n) p r.0 (b ∷ bs) i)

free_at-Freed :
    (start end_ addr : ℕ) (p : Block) (bs : List Block)
    → end_ < 2 ^ 32
    → Ordered start end_ (p ∷ bs)
    → Freed start end_ addr (in_use addr bs) (p ∷ bs) (free_at addr p bs)
unfolding free_at in_use
free_at-Freed start end_ addr p [] e o = refl
free_at-Freed start end_ addr p (b ∷ bs) e (lo, o) = elim (Bool-cases (b.addr == addr)) [
  | inr other ↦
      subst
        (λ t.
          Freed start end_ addr (if t then not b.free else in_use addr bs) (p ∷ b ∷ bs)
            (if t then hit b.free else miss))
        (sym other)
        (Freed-cons start end_ addr (in_use addr bs) p b bs (free_at addr b bs) lo
          (free_at-Freed (p.addr + p.size) end_ addr b bs e o))
  | inl here ↦
      subst
        (λ t.
          Freed start end_ addr (if t then not b.free else in_use addr bs) (p ∷ b ∷ bs)
            (if t then hit b.free else miss))
        (sym here) (found (ground (arith, here)) (Bool-cases b.free))
]
  where
    hit : Bool → Option (List Block × ℕ)
    hit f = if f then none else some (join_prev p (join_next (mark_free b) bs))

    miss : Option (List Block × ℕ)
    miss = elim (free_at addr b bs) [ none ↦ none | some r ↦ some (p ∷ r.0, r.1) ]

    joined :
        Ordered start end_ (join_prev p (join_next (mark_free b) bs)).0
        × (used (join_prev p (join_next (mark_free b) bs)).0
            ≡ used (p ∷ join_next (mark_free b) bs))
    joined =
        join_prev_lem start end_ p (join_next (mark_free b) bs) e
          (join_next-FreeFirst (mark_free b) bs refl)
          (lo, join_next-Ordered (p.addr + p.size) end_ (mark_free b) bs e o)

    found :
        b.addr ≡ addr
        → ((b.free ≡ true) ⊎ (b.free ≡ false))
        → Freed start end_ addr (not b.free) (p ∷ b ∷ bs) (hit b.free)
    found q (inl free) =
        subst (λ t. Freed start end_ addr (not t) (p ∷ b ∷ bs) (hit t)) (sym free) refl
    found q (inr given) =
        subst (λ t. Freed start end_ addr (not t) (p ∷ b ∷ bs) (hit t)) (sym given)
          (
            refl,
            joined.0,
            b.size,
            subst (λ l. Inserted (used_block addr b.size) l (used (p ∷ b ∷ bs))) (sym joined.1)
                (subst
                  (λ a.
                    Inserted (used_block a b.size) (used (p ∷ join_next (mark_free b) bs))
                      (used (p ∷ b ∷ bs)))
                  q
                  (Inserted-behind (used_block b.addr b.size) p (join_next (mark_free b) bs)
                    (b ∷ bs) (Freed-Inserted b bs given))),
          )

free_blocks-Freed :
    (start end_ addr : ℕ) (bs : List Block)
    → end_ < 2 ^ 32
    → Ordered start end_ bs
    → Freed start end_ addr (in_use addr bs) bs (free_blocks addr bs)
unfolding free_blocks in_use
free_blocks-Freed start end_ addr [] e o = refl
free_blocks-Freed start end_ addr (b ∷ bs) e o = elim (Bool-cases (b.addr == addr)) [
  | inr other ↦
      subst
        (λ t.
          Freed start end_ addr (if t then not b.free else in_use addr bs) (b ∷ bs)
            (if t then hit b.free else free_at addr b bs))
        (sym other) (free_at-Freed start end_ addr b bs e o)
  | inl here ↦
      subst
        (λ t.
          Freed start end_ addr (if t then not b.free else in_use addr bs) (b ∷ bs)
            (if t then hit b.free else free_at addr b bs))
        (sym here) (found (ground (arith, here)) (Bool-cases b.free))
]
  where
    hit : Bool → Option (List Block × ℕ)
    hit f = if f then none else some (join_next (mark_free b) bs, header b)

    found :
        b.addr ≡ addr
        → ((b.free ≡ true) ⊎ (b.free ≡ false))
        → Freed start end_ addr (not b.free) (b ∷ bs) (hit b.free)
    found q (inl free) = subst (λ t. Freed start end_ addr (not t) (b ∷ bs) (hit t)) (sym free) refl
    found q (inr given) =
        subst (λ t. Freed start end_ addr (not t) (b ∷ bs) (hit t)) (sym given)
          (
            refl,
            join_next-Ordered start end_ (mark_free b) bs e o,
            b.size,
            subst
                (λ a.
                  Inserted (used_block a b.size) (used (join_next (mark_free b) bs))
                    (used (b ∷ bs)))
                q (Freed-Inserted b bs given),
          )

released_lem :
    (start addr : ℕ) (t : Bool) (h : Heap) (o : Option (List Block × ℕ))
    → IsValid start h
    → Freed start h.kheap_end addr t h.blocks o
    → IsValid start (released h o)
      × (t ≡ false → released h o ≡ h)
      × (t ≡ true
          → (n : ℕ) × Inserted (used_block addr n) (used (released h o).blocks) (used h.blocks))
unfolding released
released_lem start addr t h none v f = (v, λ e. refl, λ e. absurd (ground (arith, e, f)))
released_lem start addr t h (some r) v (u, o, n, i) = (
  record { above = v.above; below = v.below; ordered = o },
  λ e. absurd (ground (arith, e, u)),
  λ e. (n, i),
)

-- On a heap whose blocks lie in order below 4 GiB, `kfree` of the address of a block that is free
-- changes nothing. `kfree` of the address of a block that is given out takes one block at the address
-- out of those that are given out, and leaves the others as they were. In both cases the blocks still
-- lie in order without overlap. What it does to an address that no block has is left open.
pub kfree_lem :
    (start addr : ℕ) (h : Heap)
    → IsValid start h
    → addr ≢ 0
    → has_block addr h.blocks ≡ true
    → (h' : Heap) × (kfree h addr ≡ some h')
      × IsValid start h'
      × (in_use addr h.blocks ≡ false → h' ≡ h)
      × (in_use addr h.blocks ≡ true
          → (n : ℕ) × Inserted (used_block addr n) (used h'.blocks) (used h.blocks))
unfolding kfree
kfree_lem start addr h v ne there =
    let (v', same, gone) =
      released_lem start addr (in_use addr h.blocks) h (free_blocks addr h.blocks) v
        (free_blocks-Freed start h.kheap_end addr h.blocks v.below v.ordered) in
    (released h (free_blocks addr h.blocks), rw (not_null, there) refl, v', same, gone)
  where
    not_null : (addr == 0) ≡ false
    not_null = ground (arith, ne)
