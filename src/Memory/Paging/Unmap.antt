-- ===== src/Memory/Paging/Unmap.antt =====
-- `unmap_page` of src/memory/paging.c against the processor's walk.
use frog_kernel.Base.{
  ℕ, zero, suc, ◌+◌, ◌*◌, ◌/◌, ◌<◌, ◌≤◌, ◌≡◌, ◌≢◌, refl, sym, ap, ◌∙◌, inl, inr, true, false, none,
  arith, Bool-cases,
}
use frog_kernel.Base.Store.{Array, Outcome, ok, panic}
use frog_kernel.Memory.Pmm.{Pmm, free_frame}
use frog_kernel.Memory.Pmm.Bits.{used}
use frog_kernel.Memory.Pmm.Frames
use frog_kernel.Memory.Pmm.Frames.{Free, free_frame_lem}
use frog_kernel.Memory.Paging.{
  Space, is_present, frame_of, pd_index, pt_index, none_present, release_table, unmap_page,
}
use frog_kernel.Memory.Paging.Walk.{walk_table, translate, IsSpace}
use frog_kernel.Memory.Paging.Write.{
  written, store_self, store_other, dir_kept, written-IsSpace, translate-written_self,
  translate-written_other,
}
use frog_kernel.Memory.Paging.Map.{Mappable}

none_present_lem :
    (pt : Array ℕ) (n i j : ℕ)
    → none_present pt n i ≡ true
    → i ≤ j
    → j < i + n
    → is_present (pt j) ≡ false
unfolding none_present
none_present_lem pt zero i j h lo hi = absurd (omega arith)
none_present_lem pt (suc n) i j h lo hi = ground (arith, none_present_lem pt n (i + 1) j)

free_frame-used :
    (p : Pmm) (a : ℕ)
    → Frames.IsValid p
    → used p.bitmap (a / 0x1000) ≡ true
    → free_frame p a ≡ panic
free_frame-used p a v u = refuse (free_frame p a) (free_frame_lem p a v)
  where
    refuse : (o : Outcome Pmm) → Free p a o → o ≡ panic
    refuse panic f = refl
    refuse (ok p') f = absurd (ground (arith, f.3))

mul_div : (n : ℕ) → n * 0x1000 / 0x1000 ≡ n
mul_div n = omega arith

-- The page's entry is the last one in its table.
pub record IsLast (s : Space) (dir virt : ℕ) : Type 0 where
  pub table : is_present (s.frames dir (pd_index virt)) ≡ true
  pub mapped :
      is_present (s.frames (frame_of (s.frames dir (pd_index virt))) (pt_index virt)) ≡ true
  pub alone :
      (i : ℕ)
      → i < 0x400
      → i ≢ pt_index virt
      → is_present (s.frames (frame_of (s.frames dir (pd_index virt))) i) ≡ false

-- The zero entry is written and the scan finds no other.
module _ {dir : ℕ} {s : Space} (virt : ℕ) (p : IsSpace dir s) (m : Mappable virt)
    (there : is_present (s.frames dir (pd_index virt)) ≡ true) where
  cleared : Space
  cleared = record s { frames = written p (pd_index virt) (pt_index virt) 0 m there }

  cleared_table : ℕ
  cleared_table = frame_of ((cleared).frames dir (pd_index virt))

  same_table : cleared_table ≡ frame_of (s.frames dir (pd_index virt))
  unfolding cleared cleared_table
  same_table = ap frame_of (dir_kept p (pd_index virt) (pt_index virt) 0 m there (pd_index virt))

  table_taken : free_frame s.pmm (cleared_table * 0x1000) ≡ panic
  table_taken =
      free_frame-used s.pmm (cleared_table * 0x1000) p.valid
        (rw (mul_div cleared_table, same_table) (p.table_used (pd_index virt) m there))

  cleared-IsLast :
      is_present (s.frames (frame_of (s.frames dir (pd_index virt))) (pt_index virt)) ≡ true
      → none_present ((cleared).frames cleared_table) 1024 0 ≡ true
      → IsLast s dir virt
  unfolding cleared written
  cleared-IsLast mapped empty = record {
    table = there;
    mapped = mapped;
    alone = λ i h ne.
        ap is_present (
          sym (
            store_other s.frames (frame_of (s.frames dir (pd_index virt))) (pt_index virt) 0
              (frame_of (s.frames dir (pd_index virt))) i (inr ne)))
        ∙ ap (λ t. is_present ((cleared).frames t i)) (sym same_table)
        ∙ none_present_lem ((cleared).frames cleared_table) 1024 0 i empty (omega arith)
            (omega arith);
  }

-- The two outcomes of `unmap_page`.
abbrev pub Unmapped : Space → (dir virt : ℕ) → Outcome Space → Type 0
Unmapped s dir virt panic = IsLast s dir virt
Unmapped s dir virt (ok t) =
    IsSpace dir t
    × (translate t.frames dir virt ≡ none)
    × ((v : ℕ)
        → Mappable v
        → v / 0x1000 ≢ virt / 0x1000
        → translate t.frames dir v ≡ translate s.frames dir v)

-- In an address space whose tables lie in distinct frames of the allocator, `unmap_page` panics
-- only if the page is mapped and no other page of its table is. Otherwise the walk finds nothing at
-- the page, every other page below the recursive slot goes where it went before, and the tables
-- still lie in distinct frames of the allocator.
pub unmap_page_lem :
    {dir : ℕ} (s : Space) (virt : ℕ)
    → IsSpace dir s
    → Mappable virt
    → Unmapped s dir virt (unmap_page s dir virt)
unfolding unmap_page release_table written cleared cleared_table
unmap_page_lem {dir} s virt p m =
    let pdi = pd_index virt in
    let pti = pt_index virt in
    let table = frame_of (s.frames dir pdi) in
    elim (Bool-cases (is_present (s.frames dir pdi))) [
      | inr no_table ↦ rw no_table (p, unfold translate walk_table in ground arith, λ v h ne. refl)
      | inl there ↦ rw there (elim (Bool-cases (is_present (s.frames table pti))) [
        | inr no_page ↦ rw no_page (p, unfold translate walk_table in ground arith, λ v h ne. refl)
        | inl mapped ↦
            rw mapped
              (elim (Bool-cases (
                none_present
                  (written p pdi pti 0 m there (frame_of (written p pdi pti 0 m there dir pdi)))
                  1024 0)) [
                    | inr more ↦ rw more (
                      written-IsSpace p pdi pti 0 m there,
                      translate-written_self p pdi pti 0 m there virt refl refl,
                      λ v h ne. translate-written_other p pdi pti 0 m there v h (omega arith),
                    )
                    | inl empty ↦
                        rw (empty, table_taken virt p m there)
                          (cleared-IsLast virt p m there mapped empty)
                  ])
      ])
    ]

none_present_of :
    (pt : Array ℕ) (n i : ℕ)
    → ((j : ℕ) → i ≤ j → j < i + n → is_present (pt j) ≡ false)
    → none_present pt n i ≡ true
unfolding none_present
none_present_of pt zero i h = refl
none_present_of pt (suc n) i h =
    rw (h i (omega arith) (omega arith), none_present)
      (none_present_of pt n (i + 1) (λ j lo hi. h j (omega arith) (omega arith)))

-- `unmap_page` panics on the last page that a table maps: the frame of an emptied table is still
-- in use, and `pmm_free_frame` refuses it.
pub unmap_page_last :
    {dir : ℕ} (s : Space) (virt : ℕ)
    → IsSpace dir s
    → Mappable virt
    → IsLast s dir virt
    → unmap_page s dir virt ≡ panic
unfolding unmap_page release_table written cleared cleared_table
unmap_page_last {dir} s virt p m l = rw (l.table, l.mapped, empty, table_taken virt p m l.table)
  where
    pti : ℕ
    pti = pt_index virt

    gone :
        (j : ℕ)
        → j < 0x400
        → is_present ((cleared virt p m l.table).frames (cleared_table virt p m l.table) j) ≡ false
    gone j h = ground (
      arith,
      same_table virt p m l.table,
      l.alone j,
      store_self s.frames (frame_of (s.frames dir (pd_index virt))) (pt_index virt) 0,
      store_other s.frames (frame_of (s.frames dir (pd_index virt))) (pt_index virt) 0
          (frame_of (s.frames dir (pd_index virt))) j,
    )

    empty :
        none_present ((cleared virt p m l.table).frames (cleared_table virt p m l.table)) 1024 0
        ≡ true
    empty = none_present_of _ 1024 0 (λ j lo hi. gone j (omega arith))
