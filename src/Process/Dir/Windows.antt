-- ===== src/Process/Dir/Windows.antt =====
-- What is written through a window, src/userspace/uprocess.c, against the page itself.
use frog_kernel.Base.{
  ℕ, ◌*◌, ◌/◌, ◌%◌, ◌≡◌, ◌≢◌, refl, ◌∙◌, ap, Bool, true, false, ◌&&◌, ◌||◌, ◌==◌, arith,
}
use frog_kernel.Base.Store.{Outcome, ok, panic}
use frog_kernel.Memory.Pmm.{Pmm}
use frog_kernel.Memory.Paging.{Frames, Space, store, clear_page, or_flags, frame_of}
use frog_kernel.Memory.Paging.Entries.{or_flags_lem}
use frog_kernel.Process.Dir.{
  temp_pd_slot, temp_pt_slot, open_window, close_window, window, foreign_write,
}

-- The words of the kernel's directory that name the frames at hand.
abbrev pub is_temp : (kern g i : ℕ) → Bool
is_temp kern g i = g == kern && (i == temp_pd_slot || i == temp_pt_slot)

-- Two memories agree but for those words.
abbrev pub Same : (kern : ℕ) → Frames → Frames → Type 0
Same kern m m' = (g i : ℕ) → is_temp kern g i ≡ false → m g i ≡ m' g i

-- Two outcomes agree: both panic, or the memories agree, the allocators are the same, and the
-- windows of the first are closed.
abbrev pub Agree : (kern : ℕ) → Outcome Space → Outcome Space → Type 0
Agree kern panic panic = Unit
Agree kern panic (ok t') = ⊥
Agree kern (ok t) panic = ⊥
Agree kern (ok t) (ok t') =
    (t.pmm ≡ t'.pmm)
    × Same kern t.frames t'.frames
    × (t.frames kern temp_pd_slot ≡ 0)
    × (t.frames kern temp_pt_slot ≡ 0)

module _ (kern : ℕ) {m m' : Frames} (same : Same kern m m') where
  pub Same-slot : (slot v : ℕ) → is_temp kern kern slot ≡ true → Same kern (store m kern slot v) m'
  unfolding store
  Same-slot slot v temp g i off = ground (arith, same g i off)

  pub Same-store : (f i v : ℕ) → f ≢ kern → Same kern (store m f i v) (store m' f i v)
  unfolding store
  Same-store f i v ne g j off = ground (arith, same g j off)

  pub Same-clear_page : (f : ℕ) → f ≢ kern → Same kern (clear_page m f) (clear_page m' f)
  unfolding clear_page
  Same-clear_page f ne g j off = ground (arith, same g j off)

-- `| PAGE_PRESENT | PAGE_RW` leaves the frame of an address.
pub window_frame : (phys : ℕ) → phys % 0x1000 ≡ 0 → frame_of (or_flags phys 0x3) ≡ phys / 0x1000
window_frame phys h = (or_flags_lem phys 0 h).0

closed :
    (kern : ℕ) (m : Frames)
    → (let m' = close_window (close_window m kern temp_pd_slot) kern temp_pt_slot in
        (m' kern temp_pd_slot ≡ 0) × (m' kern temp_pt_slot ≡ 0))
unfolding store
closed kern m = ground arith

module _ (kern dir : ℕ) (ne : dir ≢ kern) where
  seen :
      (m : Frames) (pdi t : ℕ)
      → window m kern temp_pd_slot ≡ dir
      → frame_of (m dir pdi) ≡ t
      → t ≢ kern
      → window
          (open_window m kern temp_pt_slot (frame_of (m (window m kern temp_pd_slot) pdi) * 0x1000))
          kern
          temp_pt_slot
        ≡ t
  unfolding store
  seen m pdi t w e nt =
      rw (w, e, refl_frame) (window_frame (t * 0x1000) (omega arith) ∙ omega arith)
    where
      refl_frame :
          store m kern temp_pt_slot (or_flags (t * 0x1000) 0x3) kern temp_pt_slot
          ≡ or_flags (t * 0x1000) 0x3
      refl_frame = ground arith

  -- The write through the two windows.
  pub foreign_write_lem :
      (m m' : Frames) (pmm : Pmm) (pdi pti v : ℕ)
      → Same kern m m'
      → window m kern temp_pd_slot ≡ dir
      → frame_of (m' dir pdi) ≢ kern
      → Agree kern
          (ok (record { frames = foreign_write m kern pdi pti v; pmm = pmm }))
          (ok (record { frames = store m' (frame_of (m' dir pdi)) pti v; pmm = pmm }))
  unfolding foreign_write
  foreign_write_lem m m' pmm pdi pti v same w nt =
      rw (seen m pdi (frame_of (m' dir pdi)) w (ap frame_of (same dir pdi off)) nt)
        (refl, written, (closed kern _).0, (closed kern _).1)
    where
      off : is_temp kern dir pdi ≡ false
      off = ground (arith, ne)

      temp :
          (slot : ℕ)
          → (slot == temp_pd_slot || slot == temp_pt_slot) ≡ true
          → is_temp kern kern slot ≡ true
      temp slot h = ground (arith, h)

      written :
          Same kern
            (close_window
              (close_window
                (store
                  (open_window m kern temp_pt_slot
                    (frame_of (m (window m kern temp_pd_slot) pdi) * 0x1000))
                  (frame_of (m' dir pdi))
                  pti
                  v)
                kern
                temp_pd_slot)
              kern
              temp_pt_slot)
            (store m' (frame_of (m' dir pdi)) pti v)
      written =
          Same-slot kern
            (Same-slot kern
              (Same-store kern (Same-slot kern same temp_pt_slot _ (temp temp_pt_slot refl))
                (frame_of (m' dir pdi)) pti v nt)
              temp_pd_slot 0 (temp temp_pd_slot refl))
            temp_pt_slot 0 (temp temp_pt_slot refl)
