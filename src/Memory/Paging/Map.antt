-- ===== src/Memory/Paging/Map.antt =====
-- `map_page` of src/memory/paging.c against the processor's walk.
use frog_kernel.Base.{
  ℕ, ◌+◌, ◌*◌, ◌/◌, ◌%◌, ◌<◌, ◌≤◌, ◌≡◌, ◌≢◌, refl, inl, inr, true, false, some, arith, Bool-cases,
  if◌then◌else◌, ◌==◌, ap, ◌∙◌,
}
use frog_kernel.Base.Store.{Outcome, ok, panic, ◌>>=◌}
use frog_kernel.Memory.Pmm.{Pmm, alloc_frame}
use frog_kernel.Memory.Pmm.Bits.{used}
use frog_kernel.Memory.Pmm.Frames
use frog_kernel.Memory.Pmm.Frames.{Allocated, Alloc, alloc_frame_lem}
use frog_kernel.Memory.Paging.{
  Frames, Space, recursive_slot, store, clear_page, is_present, or_flags, entry, frame_of, pd_index,
  pt_index, pd_flags, new_table, ensure_table, map_page,
}
use frog_kernel.Memory.Paging.Entries.{entry_lem, or_flags_lem}
use frog_kernel.Memory.Paging.Walk.{walk_table, translate, IsSpace}
use frog_kernel.Memory.Paging.Write.{
  written, written-IsSpace, translate-written_self, translate-written_other,
}

-- A fresh table is put into an empty slot.
module _ {dir : ℕ} {s : Space} (p : IsSpace dir s) (pdi e : ℕ) (pmm' : Pmm)
    (empty : is_present (s.frames dir pdi) ≡ false)
    (al : Allocated s.pmm (frame_of e * 0x1000) pmm') (v' : Frames.IsValid pmm')
    (there : is_present e ≡ true) where
  pub fresh : Frames
  fresh = clear_page (store s.frames dir pdi e) (frame_of (store s.frames dir pdi e dir pdi))

  new_frame : used s.pmm.bitmap (frame_of e) ≡ false
  new_frame = ground (arith, al.was_free)

  ne_dir : frame_of e ≢ dir
  ne_dir h = ground (arith, new_frame, p.dir_used)

  fresh_dir : (j : ℕ) → fresh dir j ≡ (if j == pdi then e else s.frames dir j)
  unfolding fresh clear_page store
  fresh_dir j = ground (arith, ne_dir)

  fresh_other : (g j : ℕ) → g ≢ dir → g ≢ frame_of e → fresh g j ≡ s.frames g j
  unfolding fresh clear_page store
  fresh_other g j h k = ground (arith, ne_dir)

  fresh_new : (j : ℕ) → j < 0x400 → fresh (frame_of e) j ≡ 0
  unfolding fresh clear_page store
  fresh_new j h = ground (arith, ne_dir)

  old_ne :
      (i : ℕ)
      → i < recursive_slot
      → is_present (s.frames dir i) ≡ true
      → frame_of (s.frames dir i) ≢ frame_of e
  old_ne i h t eq = ground (arith, new_frame, p.table_used i h t)

  still_used : (q : ℕ) → used s.pmm.bitmap q ≡ true → used pmm'.bitmap q ≡ true
  still_used q h = ground (arith, al.bits q)

  now_used : used pmm'.bitmap (frame_of e) ≡ true
  now_used = ground (arith, al.bits (frame_of e))

  fresh-IsSpace : IsSpace dir (record { frames = fresh; pmm = pmm' })
  fresh-IsSpace = record {
    valid = v';
    dir_used = still_used dir p.dir_used;
    table_used = λ i h t.
        ground
          (arith, fresh_dir i, p.table_used i, still_used (frame_of (s.frames dir i)), now_used);
    not_dir = λ i h t. ground (arith, fresh_dir i, p.not_dir i, ne_dir);
    distinct = λ i j h k t u eq.
        ground (arith, fresh_dir i, fresh_dir j, p.distinct i j, old_ne i, old_ne j);
  }

  translate-fresh :
      (virt : ℕ)
      → pd_index virt < recursive_slot
      → translate fresh dir virt ≡ translate s.frames dir virt
  unfolding translate walk_table
  translate-fresh virt h = elim (Bool-cases (pd_index virt == pdi)) [
    | inl here ↦ ground (arith, fresh_dir (pd_index virt), fresh_new (pt_index virt))
    | inr other ↦ ground (
      arith,
      fresh_dir (pd_index virt),
      fresh_other (frame_of (s.frames dir (pd_index virt))) (pt_index virt),
      p.not_dir (pd_index virt),
      old_ne (pd_index virt),
    )
  ]

-- What `ensure_table` promises: a table is there, and no address moves.
pub record Ensured (dir pdi : ℕ) (s t : Space) : Type 0 where
  pub space : IsSpace dir t
  pub there : is_present (t.frames dir pdi) ≡ true
  pub same :
      (virt : ℕ)
      → pd_index virt < recursive_slot
      → translate t.frames dir virt ≡ translate s.frames dir virt

-- The two outcomes. It panics only if the slot is empty and no frame is left.
abbrev pub Ensure : (dir pdi : ℕ) → Space → Outcome Space → Type 0
Ensure dir pdi s panic =
    (is_present (s.frames dir pdi) ≡ false)
    × ((j : ℕ) → 1 ≤ j → j < s.pmm.total_pages → used s.pmm.bitmap j ≡ true)
Ensure dir pdi s (ok t) = Ensured dir pdi s t

pub ensure_table_lem :
    {dir : ℕ} (s : Space) (pdi flags : ℕ)
    → IsSpace dir s
    → Ensure dir pdi s (ensure_table s dir pdi flags)
unfolding ensure_table new_table fresh
ensure_table_lem {dir} s pdi flags p = elim (Bool-cases (is_present (s.frames dir pdi))) [
  | inl there ↦ rw there (record { space = p; there = there; same = λ v h. refl })
  | inr empty ↦ rw empty (filled (alloc_frame s.pmm) (alloc_frame_lem s.pmm p.valid) empty)
]
  where
    filled :
        (o : Outcome (ℕ × Pmm))
        → Alloc s.pmm o
        → is_present (s.frames dir pdi) ≡ false
        → Ensure dir pdi s (o >>= new_table s dir pdi flags)
    filled panic full empty = (empty, full)
    filled (ok (a, pmm')) (al, v') empty =
        let e = or_flags a (pd_flags flags) in
        let (names, there) = or_flags_lem a flags (omega (arith, al.aligned)) in
        let al' : Allocated s.pmm (frame_of e * 0x1000) pmm' = rw (names, ← al.aligned) al in
        rw (ne_zero a al) (record {
          space = fresh-IsSpace p pdi e pmm' empty al' v' there;
          there = ap is_present (fresh_dir p pdi e pmm' empty al' v' there pdi) ∙ ground arith;
          same = translate-fresh p pdi e pmm' empty al' v' there;
        })
      where
        ne_zero : (a : ℕ) → Allocated s.pmm a pmm' → (a == 0) ≡ false
        ne_zero a al = ground (arith, al.not_null)

-- A page of the directory's range below the recursive slot.
abbrev pub Mappable : ℕ → Type 0
Mappable virt = pd_index virt < recursive_slot

-- The two outcomes of `map_page`.
abbrev pub Mapped : Space → (dir phys virt : ℕ) → Outcome Space → Type 0
Mapped s dir phys virt panic =
    (is_present (s.frames dir (pd_index virt)) ≡ false)
    × ((j : ℕ) → 1 ≤ j → j < s.pmm.total_pages → used s.pmm.bitmap j ≡ true)
Mapped s dir phys virt (ok t) =
    IsSpace dir t
    × (translate t.frames dir virt ≡ some (phys / 0x1000 * 0x1000 + virt % 0x1000))
    × ((v : ℕ)
        → Mappable v
        → v / 0x1000 ≢ virt / 0x1000
        → translate t.frames dir v ≡ translate s.frames dir v)

-- In an address space whose tables lie in distinct frames of the allocator, `map_page` panics only
-- if the page has no table and no frame is free. Otherwise the walk takes the page to the frame
-- that was asked for, every other page below the recursive slot goes where it went before, and
-- the tables still lie in distinct frames of the allocator.
pub map_page_lem :
    {dir : ℕ} (s : Space) (phys virt flags : ℕ)
    → IsSpace dir s
    → Mappable virt
    → Mapped s dir phys virt (map_page s dir phys virt flags)
unfolding map_page written
map_page_lem {dir} s phys virt flags p m =
    mapped (ensure_table s dir (pd_index virt) flags) (ensure_table_lem s (pd_index virt) flags p)
  where
    mapped :
        (o : Outcome Space)
        → Ensure dir (pd_index virt) s o
        → Mapped s dir phys virt (
            o >>= λ t. ok (record t {
              frames =
                  store t.frames
                    (frame_of (t.frames dir (pd_index virt)))
                    (pt_index virt)
                    (entry phys flags);
            }))
    mapped panic e = e
    mapped (ok t) e =
        let (frame, present) = entry_lem phys flags in
        let v = entry phys flags in
        (
          written-IsSpace e.space (pd_index virt) (pt_index virt) v m e.there,
          translate-written_self e.space (pd_index virt) (pt_index virt) v m e.there virt refl refl
              ∙ ground (arith, frame, present),
          λ w h ne.
              translate-written_other e.space (pd_index virt) (pt_index virt) v m e.there w h
                (omega arith)
              ∙ e.same w h,
        )
