-- ===== src/Process/Dir/Same.antt =====
-- `foreign_map_page` of src/userspace/uprocess.c against `map_page` of src/memory/paging.c: the one
-- writes a directory through windows, the other the one that the processor uses.
use frog_kernel.Base.{
  ℕ, ◌/◌, ◌%◌, ◌≡◌, ◌≢◌, refl, sym, ◌∙◌, ap, true, false, Bool-cases, inl, inr, ◌==◌, arith,
}
use frog_kernel.Base.Store.{Outcome, ok, panic, ◌>>=◌}
use frog_kernel.Memory.Pmm.{Pmm, alloc_frame}
use frog_kernel.Memory.Pmm.Bits.{used}
use frog_kernel.Memory.Pmm.Frames.{Alloc, alloc_frame_lem}
use frog_kernel.Memory.Paging.{
  Frames, Space, store, clear_page, is_present, or_flags, entry, frame_of, pd_index, pt_index,
  pd_flags, new_table, ensure_table, map_page,
}
use frog_kernel.Memory.Paging.Entries.{or_flags_lem}
use frog_kernel.Memory.Paging.Walk.{IsSpace}
use frog_kernel.Memory.Paging.Write.{store_self}
use frog_kernel.Process.Dir.{
  temp_pd_slot, temp_pt_slot, open_window, close_window, window, foreign_table, foreign_ensure,
  foreign_write, foreign_map_page,
}
use frog_kernel.Process.Dir.Windows.{
  is_temp, Same, Agree, Same-slot, Same-store, Same-clear_page, window_frame, foreign_write_lem,
}

module _ {kern : ℕ} (s : Space) (pd_phys : ℕ) (pdi : ℕ) (aligned : pd_phys % 0x1000 ≡ 0)
    (p : IsSpace (pd_phys / 0x1000) s) (ne : pd_phys / 0x1000 ≢ kern)
    (kern_used : used s.pmm.bitmap kern ≡ true) where
  -- What the halves of the two functions that see to a page table leave.
  abbrev Ready : Outcome Space → Outcome Space → Type 0
  Ready panic panic = Unit
  Ready panic (ok t') = ⊥
  Ready (ok t) panic = ⊥
  Ready (ok t) (ok t') =
      (t.pmm ≡ t'.pmm)
      × Same kern t.frames t'.frames
      × (window t.frames kern temp_pd_slot ≡ pd_phys / 0x1000)
      × (frame_of (t'.frames (pd_phys / 0x1000) pdi) ≢ kern)

  abbrev opened : Frames
  opened = open_window s.frames kern temp_pd_slot pd_phys

  opened-window : window opened kern temp_pd_slot ≡ pd_phys / 0x1000
  unfolding store
  opened-window = ap frame_of (the_word) ∙ window_frame pd_phys aligned
    where
      the_word : opened kern temp_pd_slot ≡ or_flags pd_phys 0x3
      the_word = ground arith

  opened-Same : Same kern opened s.frames
  unfolding store
  opened-Same g i off = ground (arith, off)

  module _ (e a : ℕ) (names : frame_of e ≡ a / 0x1000) (na : a / 0x1000 ≢ kern)
      (nd : a / 0x1000 ≢ pd_phys / 0x1000) where
    abbrev mapped : Frames
    mapped = clear_page (store s.frames (pd_phys / 0x1000) pdi e) (a / 0x1000)

    abbrev foreign : Frames
    foreign =
        close_window
          (clear_page (open_window (store opened (pd_phys / 0x1000) pdi e) kern temp_pt_slot a)
            (a / 0x1000))
          kern temp_pt_slot

    foreign-Same : Same kern foreign mapped
    foreign-Same =
        Same-slot kern
          (Same-clear_page kern
            (Same-slot kern (Same-store kern opened-Same (pd_phys / 0x1000) pdi e ne) temp_pt_slot
              (or_flags a 0x3) temp)
            (a / 0x1000) na)
          temp_pt_slot 0 temp
      where
        temp : is_temp kern kern temp_pt_slot ≡ true
        temp = ground arith

    foreign_window : foreign kern temp_pd_slot ≡ opened kern temp_pd_slot
    unfolding store clear_page
    foreign_window = ground (arith, na, ne)

    mapped_entry : mapped (pd_phys / 0x1000) pdi ≡ e
    unfolding store clear_page
    mapped_entry = ground (arith, nd)

  foreign_table-Ready :
      (flags : ℕ) (o : Outcome (ℕ × Pmm))
      → Alloc s.pmm o
      → Ready
          (o >>= foreign_table opened kern pdi flags)
          (o >>= new_table s (pd_phys / 0x1000) pdi flags)
  unfolding foreign_table new_table
  foreign_table-Ready flags panic full = tt
  foreign_table-Ready flags (ok (a, pmm')) (al, v') =
      rw
        (
          not_null,
          opened-window,
          store_self s.frames (pd_phys / 0x1000) pdi e,
          names,
          store_self (store opened (pd_phys / 0x1000) pdi e) kern temp_pt_slot (or_flags a 0x3),
          window_frame a (omega (arith, al.aligned)),
        )
        (
          refl,
          foreign-Same e a names na nd,
          ap frame_of (foreign_window e a names na nd) ∙ opened-window,
          λ z. na (sym names ∙ ap frame_of (sym (mapped_entry e a names na nd)) ∙ z),
        )
    where
      e : ℕ
      e = or_flags a (pd_flags flags)

      names : frame_of e ≡ a / 0x1000
      names = (or_flags_lem a flags (omega (arith, al.aligned))).0

      not_null : (a == 0) ≡ false
      not_null = ground (arith, al.not_null)

      na : a / 0x1000 ≢ kern
      na z = ground (arith, al.was_free, kern_used)

      nd : a / 0x1000 ≢ pd_phys / 0x1000
      nd z = ground (arith, al.was_free, p.dir_used)

  foreign_ensure-Ready :
      (flags : ℕ)
      → (is_present (s.frames (pd_phys / 0x1000) pdi) ≡ true
          → frame_of (s.frames (pd_phys / 0x1000) pdi) ≢ kern)
      → Ready
          (foreign_ensure (record s { frames = opened }) kern pdi flags)
          (ensure_table s (pd_phys / 0x1000) pdi flags)
  unfolding foreign_ensure ensure_table
  foreign_ensure-Ready flags apart =
      elim (Bool-cases (is_present (s.frames (pd_phys / 0x1000) pdi))) [
        | inl there ↦
            rw (opened-window, word, there) (refl, opened-Same, opened-window, apart there)
        | inr empty ↦
            rw (opened-window, word, empty)
              (foreign_table-Ready flags (alloc_frame s.pmm) (alloc_frame_lem s.pmm p.valid))
      ]
    where
      word : opened (pd_phys / 0x1000) pdi ≡ s.frames (pd_phys / 0x1000) pdi
      word = opened-Same (pd_phys / 0x1000) pdi (ground (arith, ne))

-- The directory at `pd_phys` and its tables lie in distinct frames of the allocator, the kernel's
-- directory in another one, and the page has no table or one that is not the kernel's directory.
-- Then `foreign_map_page` does to the directory at `pd_phys` what `map_page` does to the one in use:
-- both panic, or they leave the same memory but for two slots of the kernel's directory, which the
-- first leaves empty, and the same allocator.
pub foreign_map_page_lem :
    (kern : ℕ) (s : Space) (pd_phys phys virt flags : ℕ)
    → pd_phys % 0x1000 ≡ 0
    → IsSpace (pd_phys / 0x1000) s
    → pd_phys / 0x1000 ≢ kern
    → used s.pmm.bitmap kern ≡ true
    → (is_present (s.frames (pd_phys / 0x1000) (pd_index virt)) ≡ true
        → frame_of (s.frames (pd_phys / 0x1000) (pd_index virt)) ≢ kern)
    → Agree kern
        (foreign_map_page s kern pd_phys phys virt flags)
        (map_page s (pd_phys / 0x1000) phys virt flags)
unfolding foreign_map_page map_page
foreign_map_page_lem kern s pd_phys phys virt flags aligned p ne ku apart =
    finish _ _ (foreign_ensure-Ready s pd_phys (pd_index virt) aligned p ne ku flags apart)
  where
    finish :
        (o o' : Outcome Space)
        → Ready s pd_phys (pd_index virt) aligned p ne ku o o'
        → Agree kern
            (o >>= λ t. ok (record t {
              frames =
                  foreign_write t.frames kern (pd_index virt) (pt_index virt) (entry phys flags);
            }))
            (o' >>= λ t. ok (record t {
              frames =
                  store t.frames
                    (frame_of (t.frames (pd_phys / 0x1000) (pd_index virt)))
                    (pt_index virt)
                    (entry phys flags);
            }))
    finish panic panic r = tt
    finish panic (ok t') r = r
    finish (ok t) panic r = r
    finish (ok t) (ok t') (e, same, w, nt) =
        let (f, g, c, d) =
          foreign_write_lem kern (pd_phys / 0x1000) ne t.frames t'.frames t.pmm (pd_index virt)
            (pt_index virt) (entry phys flags) same w nt in
        (e, g, c, d)
