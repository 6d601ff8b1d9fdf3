-- ===== src/Memory/Heap/Alloc.antt =====
-- `kmalloc` of src/memory/kheap.c on a heap whose blocks are in order.
use mathlib.Core.Path.{subst}
use frog_kernel.Base.{
  ℕ, zero, suc, ◌+◌, ◌*◌, ◌%◌, ◌^◌, ◌≤◌, ◌<◌, ◌≡◌, refl, true, false, Option, none, some, List, [],
  ◌∷◌, ◌++◌, arith,
}
use frog_kernel.Base.Store.{Outcome, ok, panic, ◌>>=◌}
use frog_kernel.Memory.Pmm.{Pmm, alloc_frame}
use frog_kernel.Memory.Paging.{Space, map_page}
use frog_kernel.Memory.Heap.{
  Block, Heap, header_size, used_block, Fit, page_block, grow, add_page, map_frame, kmalloc, serve,
  retry,
}
use frog_kernel.Memory.Heap.Blocks.{Ordered, used, Inserted, Placed, find_fit_lem}

-- The blocks lie in order between the start of the heap and its end, below 4 GiB.
pub record IsValid (start : ℕ) (h : Heap) : Type 0 where
  pub above : 0 < start
  pub below : h.kheap_end < 2 ^ 32
  pub ordered : Ordered start h.kheap_end h.blocks

Ordered-snoc :
    (start end_ : ℕ) (b : Block) (bs : List Block)
    → Ordered start end_ bs
    → end_ + header_size ≤ b.addr
    → Ordered start (b.addr + b.size) (bs ++ b ∷ [])
Ordered-snoc start end_ b [] o h = (omega arith, omega arith)
Ordered-snoc start end_ b (c ∷ bs) (lo, o) h = (lo, Ordered-snoc (c.addr + c.size) end_ b bs o h)

used-snoc : (b : Block) (bs : List Block) → b.free ≡ true → used (bs ++ b ∷ []) ≡ used bs
unfolding used
used-snoc b [] free = rw free refl
used-snoc b (c ∷ bs) free = ground (arith, used-snoc b bs free)

-- A heap that has grown by a page.
abbrev pub Grown : (start : ℕ) → Heap → Outcome Heap → Type 0
Grown start h panic = Unit
Grown start h (ok h') =
    IsValid start h' × (h'.kheap_end ≡ h.kheap_end + 4096) × (used h'.blocks ≡ used h.blocks)

Grown-bind {ℓ} :
    {A : Type ℓ} (start : ℕ) (h : Heap) (o : Outcome A) (f : A → Outcome Heap)
    → ((a : A) → Grown start h (f a))
    → Grown start h (o >>= f)
Grown-bind start h panic f g = tt
Grown-bind start h (ok a) f g = g a

add_page-Grown :
    (start : ℕ) (h : Heap) (space : Space)
    → IsValid start h
    → h.kheap_end + 4096 < 2 ^ 32
    → Grown start h (ok (add_page h space))
unfolding add_page
add_page-Grown start h space v room = (
  record { above = v.above; below = omega arith; ordered = ordered },
  omega arith,
  used-snoc (page_block h) h.blocks refl,
)
  where
    at_end : h.kheap_end + header_size + 4076 ≡ (h.kheap_end + 4096) % 2 ^ 32
    at_end = omega arith

    ordered : Ordered start ((h.kheap_end + 4096) % 2 ^ 32) (h.blocks ++ page_block h ∷ [])
    ordered =
        subst (λ e. Ordered start e (h.blocks ++ page_block h ∷ [])) at_end
          (Ordered-snoc start h.kheap_end (page_block h) h.blocks v.ordered (omega arith))

map_frame-Grown :
    (start dir : ℕ) (h : Heap) (r : ℕ × Pmm)
    → IsValid start h
    → h.kheap_end + 4096 < 2 ^ 32
    → Grown start h (map_frame dir h r)
unfolding map_frame
map_frame-Grown start dir h (frame, pmm') v room =
    Grown-bind start h
      (map_page (record { frames = h.space.frames; pmm = pmm' }) dir frame h.kheap_end 0x3)
      (λ space. ok (add_page h space)) (λ space. add_page-Grown start h space v room)

grow_lem :
    (start dir : ℕ) (h : Heap)
    → IsValid start h
    → h.kheap_end + 4096 < 2 ^ 32
    → Grown start h (grow dir h)
unfolding grow
grow_lem start dir h v room =
    Grown-bind start h (alloc_frame h.space.pmm) (map_frame dir h)
      (λ r. map_frame-Grown start dir h r v room)

-- What a call that returns leaves.
abbrev pub Given : (start size : ℕ) → (old : List Block) → Option (Outcome (ℕ × Heap)) → Type 0
Given start size old none = Unit
Given start size old (some panic) = Unit
Given start size old (some (ok (a, h'))) =
    IsValid start h' × Inserted (used_block a size) old (used h'.blocks)

serve-Given :
    (start size : ℕ) (h : Heap) (o : Option Fit) (later : Option (Outcome (ℕ × Heap)))
    → IsValid start h
    → Placed start h.kheap_end size h.blocks o
    → Given start size (used h.blocks) later
    → Given start size (used h.blocks) (serve h o later)
unfolding serve
serve-Given start size h none later v p g = g
serve-Given start size h (some f) later v (o, i) g =
    (record { above = v.above; below = v.below; ordered = o }, i)

retry-Given :
    (start size : ℕ) (h : Heap) (again : Heap → Option (Outcome (ℕ × Heap))) (o : Outcome Heap)
    → Grown start h o
    → ((h' : Heap)
        → IsValid start h'
        → h'.kheap_end ≡ h.kheap_end + 4096
        → Given start size (used h'.blocks) (again h'))
    → Given start size (used h.blocks) (retry again o)
unfolding retry
retry-Given start size h again panic g f = tt
retry-Given start size h again (ok h') (v, e, u) f =
    subst (λ old. Given start size old (again h')) u (f h' v e)

kmalloc-Given :
    (start fuel dir size : ℕ) (h : Heap)
    → IsValid start h
    → h.kheap_end + fuel * 4096 < 2 ^ 32
    → Given start size (used h.blocks) (kmalloc fuel dir h size)
unfolding kmalloc
kmalloc-Given start zero dir size h v room = tt
kmalloc-Given start (suc f) dir size h v room =
    serve-Given start size h _ _ v
      (find_fit_lem start h.kheap_end h.free_head size false h.blocks v.above v.below v.ordered)
      (retry-Given start size h (λ h'. kmalloc f dir h' size) (grow dir h)
        (grow_lem start dir h v (omega arith))
        (λ h' w e. kmalloc-Given start f dir size h' w (omega arith)))

-- If the blocks of the heap lie in order below 4 GiB, and there is room for the pages that may be
-- added, then a block that `kmalloc` returns has the size that was asked for. The blocks still lie
-- in order without overlap, every block that was given out before is as it was, and the new one is
-- the only one that has come.
pub kmalloc_lem :
    (start fuel dir size a : ℕ) (h h' : Heap)
    → IsValid start h
    → h.kheap_end + fuel * 4096 < 2 ^ 32
    → kmalloc fuel dir h size ≡ some (ok (a, h'))
    → IsValid start h' × Inserted (used_block a size) (used h.blocks) (used h'.blocks)
kmalloc_lem start fuel dir size a h h' v room e =
    subst (Given start size (used h.blocks)) e (kmalloc-Given start fuel dir size h v room)
