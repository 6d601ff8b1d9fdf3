-- ===== src/Memory/Heap/Growth.antt =====
-- When `kmalloc` of src/memory/kheap.c, which adds a page and calls itself, comes to an end.
use mathlib.Core.Path.{subst}
use frog_kernel.Base.{
  ℕ, zero, suc, ◌<◌, ◌≡◌, ◌≢◌, ◌∙◌, refl, sym, Bool, false, ◌||◌, Option, none, some, ◌==◌, List,
  [], ◌∷◌, ◌++◌, arith,
}
use frog_kernel.Base.Store.{Outcome, ok, panic, ◌>>=◌}
use frog_kernel.Memory.Pmm.{Pmm, alloc_frame}
use frog_kernel.Memory.Paging.{Space, map_page}
use frog_kernel.Memory.Heap.{
  Block, Heap, Fit, header, find_fit, page_block, grow, add_page, map_frame, kmalloc, serve, retry,
}

-- A block has this header.
unfoldable pub has_header : ℕ → List Block → Bool
has_header fh [] = false
has_header fh (b ∷ bs) = let rest = has_header fh bs in header b == fh || rest

abbrev Found : Option Fit → Type 0
Found none = ⊥
Found (some f) = Unit

-- A block is returned.
abbrev Succeeds : Option (Outcome (ℕ × Heap)) → Type 0
Succeeds none = ⊥
Succeeds (some panic) = ⊥
Succeeds (some (ok r)) = Unit

-- A heap that grows has one page more.
abbrev Grown : Heap → Outcome Heap → Type 0
Grown h panic = Unit
Grown h (ok h') = (space : Space) × (h' ≡ add_page h space)

-- The heaps that adding a page can lead to.
retry-map :
    (P : Option (Outcome (ℕ × Heap)) → Type 0) (dir : ℕ) (h : Heap)
    (again : Heap → Option (Outcome (ℕ × Heap)))
    → P (some panic)
    → ((space : Space) → P (again (add_page h space)))
    → P (retry again (grow dir h))
unfolding retry grow map_frame
retry-map P dir h again p g = on_frame (alloc_frame h.space.pmm)
  where
    on_space : (o : Outcome Space) → P (retry again (o >>= λ space. ok (add_page h space)))
    on_space panic = p
    on_space (ok space) = g space

    on_frame : (o : Outcome (ℕ × Pmm)) → P (retry again (o >>= map_frame dir h))
    on_frame panic = p
    on_frame (ok (frame, pmm')) =
        on_space
          (map_page (record { frames = h.space.frames; pmm = pmm' }) dir frame h.kheap_end 0x3)

-- A call ends: with a block, or with a panic because none fits and no page can be added.
abbrev pub BlockOrPanic : (dir size : ℕ) → Heap → Option (Outcome (ℕ × Heap)) → Type 0
BlockOrPanic dir size h none = ⊥
BlockOrPanic dir size h (some (ok r)) = Unit
BlockOrPanic dir size h (some panic) =
    (find_fit h.free_head size false h.blocks ≡ none) × (grow dir h ≡ panic)

-- A block that is too small does not help.
find_fit-small :
    (fh size : ℕ) (started : Bool) (bs : List Block) (b : Block)
    → b.size < size
    → find_fit fh size started bs ≡ none
    → find_fit fh size started (bs ++ b ∷ []) ≡ none
unfolding find_fit
find_fit-small fh size started [] b small e = ground (arith, small)
find_fit-small fh size started (c ∷ bs) b small e =
    ground (arith, e, find_fit-small fh size (started || header c == fh) bs b small)

abbrev Fails : Option (Outcome (ℕ × Heap)) → Type 0
Fails none = Unit
Fails (some panic) = Unit
Fails (some (ok r)) = ⊥

serve-Fails :
    (h : Heap) (o : Option Fit) (later : Option (Outcome (ℕ × Heap)))
    → o ≡ none
    → Fails later
    → Fails (serve h o later)
unfolding serve
serve-Fails h none later e f = f
serve-Fails h (some g) later e f = absurd (ground (arith, e))

add_page-small :
    (size : ℕ) (h : Heap) (space : Space)
    → 4076 < size
    → h.free_head ≢ 0
    → find_fit h.free_head size false h.blocks ≡ none
    → ((add_page h space).free_head ≡ h.free_head)
      × (find_fit (add_page h space).free_head size false (add_page h space).blocks ≡ none)
unfolding add_page
add_page-small size h space big fh e =
    rw not_null (refl, find_fit-small h.free_head size false h.blocks (page_block h) big e)
  where
    not_null : (h.free_head == 0) ≡ false
    not_null = ground (arith, fh)

kmalloc-Fails :
    (fuel dir size : ℕ) (h : Heap)
    → 4076 < size
    → h.free_head ≢ 0
    → find_fit h.free_head size false h.blocks ≡ none
    → Fails (kmalloc fuel dir h size)
unfolding kmalloc
kmalloc-Fails zero dir size h big fh e = tt
kmalloc-Fails (suc f) dir size h big fh e =
    serve-Fails h (find_fit h.free_head size false h.blocks) _ e (
      retry-map Fails dir h (λ h'. kmalloc f dir h' size) tt
        (λ space.
          let (same, none_) = add_page-small size h space big fh e in
          kmalloc-Fails f dir size (add_page h space) big (λ q. fh (sym same ∙ q)) none_))

-- If no block fits a call for more than 4076 bytes, and `free_head` is not NULL, then the call never
-- returns a block, whatever the fuel.
pub kmalloc-large :
    (fuel dir size : ℕ) (h : Heap) (r : ℕ × Heap)
    → 4076 < size
    → h.free_head ≢ 0
    → find_fit h.free_head size false h.blocks ≡ none
    → kmalloc fuel dir h size ≢ some (ok r)
kmalloc-large fuel dir size h r big fh e q = subst Fails q (kmalloc-Fails fuel dir size h big fh e)
