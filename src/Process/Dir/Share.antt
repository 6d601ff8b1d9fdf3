-- ===== src/Process/Dir/Share.antt =====
-- `uprocess_create_pagedir` of src/userspace/uprocess.c: what a new directory maps.
use frog_kernel.Base.{
  ℕ, ◌/◌, ◌%◌, ◌<◌, ◌≤◌, ◌≡◌, ◌≢◌, ◌∙◌, ap, true, false, none, ◌&&◌, ◌==◌, arith,
}
use frog_kernel.Base.Store.{Outcome, ok, panic, ◌>>=◌}
use frog_kernel.Memory.Pmm.{Pmm, alloc_frame}
use frog_kernel.Memory.Pmm.Bits.{used}
use frog_kernel.Memory.Pmm.Frames
use frog_kernel.Memory.Pmm.Frames.{Allocated, Alloc, alloc_frame_lem}
use frog_kernel.Memory.Paging.{
  Frames, Space, recursive_slot, store, is_present, or_flags, frame_of, pd_index, pt_index,
}
use frog_kernel.Memory.Paging.Walk.{IsSpace, translate, walk_table}
use frog_kernel.Memory.Paging.Write.{store_self}
use frog_kernel.Process.Dir.{
  temp_pd_slot, open_window, close_window, window, share_kernel, fill_dir, uprocess_create_pagedir,
}
use frog_kernel.Process.Dir.Windows.{window_frame}

-- The directory in frame `pd` of a new process: the user's half is empty, the kernel's half is the
-- kernel's, but for the window of slot 1020 and the slot that names the directory itself. Nothing
-- else has changed but the kernel's slot 1020, which is empty.
pub record Fresh (kern : ℕ) (s : Space) (pd : ℕ) (t : Space) : Type 0 where
  pub user_half : (i : ℕ) → i < 768 → t.frames pd i ≡ 0
  pub kernel_half :
      (i : ℕ) → 768 ≤ i → i < recursive_slot → i ≢ temp_pd_slot → t.frames pd i ≡ s.frames kern i
  pub no_window : t.frames pd temp_pd_slot ≡ 0
  pub own : frame_of (t.frames pd recursive_slot) ≡ pd
  pub others :
      (g i : ℕ) → g ≢ pd → (g == kern && i == temp_pd_slot) ≡ false → t.frames g i ≡ s.frames g i
  pub closed : t.frames kern temp_pd_slot ≡ 0

-- The two outcomes of `uprocess_create_pagedir`.
abbrev pub Created : (kern : ℕ) → Space → Outcome (ℕ × Space) → Type 0
Created kern s panic = (j : ℕ) → 1 ≤ j → j < s.pmm.total_pages → used s.pmm.bitmap j ≡ true
Created kern s (ok (pd_phys, t)) =
    Allocated s.pmm pd_phys t.pmm × Frames.IsValid t.pmm × Fresh kern s (pd_phys / 0x1000) t

module _ (kern : ℕ) (s : Space) (a : ℕ) (aligned : a % 0x1000 ≡ 0) (na : a / 0x1000 ≢ kern)
    (pmm' : Pmm) where
  fill_dir_window : window (open_window s.frames kern temp_pd_slot a) kern temp_pd_slot ≡ a / 0x1000
  fill_dir_window =
      ap frame_of (store_self s.frames kern temp_pd_slot (or_flags a 0x3)) ∙ window_frame a aligned

  fill_dir-Fresh : Fresh kern s (a / 0x1000) (fill_dir kern s.frames (a, pmm')).1
  unfolding fill_dir share_kernel store
  fill_dir-Fresh = rw fill_dir_window (record {
    user_half = λ i h. ground (arith, na);
    kernel_half = λ i lo hi ne. ground (arith, na, ne);
    no_window = ground (arith, na);
    own = own_word;
    others = λ g i ne off. ground (arith, ne, off);
    closed = ground (arith, na);
  })
    where
      own_word :
          frame_of (
            close_window
              (store
                (store
                  (share_kernel (open_window s.frames kern temp_pd_slot a) kern (a / 0x1000))
                  (a / 0x1000)
                  recursive_slot
                  (or_flags a 0x3))
                (a / 0x1000)
                temp_pd_slot
                0)
              kern
              temp_pd_slot
              (a / 0x1000)
              recursive_slot)
          ≡ a / 0x1000
      own_word = ap frame_of last ∙ window_frame a aligned
        where
          last :
              close_window
                (store
                  (store
                    (share_kernel (open_window s.frames kern temp_pd_slot a) kern (a / 0x1000))
                    (a / 0x1000)
                    recursive_slot
                    (or_flags a 0x3))
                  (a / 0x1000)
                  temp_pd_slot
                  0)
                kern
                temp_pd_slot
                (a / 0x1000)
                recursive_slot
              ≡ or_flags a 0x3
          last = ground (arith, na)

create_pagedir-Created :
    (kern : ℕ) (s : Space)
    → Frames.IsValid s.pmm
    → used s.pmm.bitmap kern ≡ true
    → Created kern s (uprocess_create_pagedir s kern)
unfolding uprocess_create_pagedir
create_pagedir-Created kern s v ku = created (alloc_frame s.pmm) (alloc_frame_lem s.pmm v)
  where
    created :
        (o : Outcome (ℕ × Pmm))
        → Alloc s.pmm o
        → Created kern s (o >>= λ r. ok (fill_dir kern s.frames r))
    created panic full = full
    created (ok (a, pmm')) (al, v') =
        (al, v', fill_dir-Fresh kern s a (omega (arith, al.aligned)) apart pmm')
      where
        apart : a / 0x1000 ≢ kern
        apart z = ground (arith, al.was_free, ku)

-- The walk reads two words.
translate-two_words :
    (m m' : Frames) (d d' virt : ℕ)
    → m' d' (pd_index virt) ≡ m d (pd_index virt)
    → (is_present (m d (pd_index virt)) ≡ true
        → m' (frame_of (m d (pd_index virt))) (pt_index virt)
          ≡ m (frame_of (m d (pd_index virt))) (pt_index virt))
    → translate m' d' virt ≡ translate m d virt
unfolding translate walk_table
translate-two_words m m' d d' virt e f = ground (arith, e, f)

-- The two outcomes, in terms of the processor's walk.
abbrev pub Shares : (kern : ℕ) → Space → Outcome (ℕ × Space) → Type 0
Shares kern s panic = (j : ℕ) → 1 ≤ j → j < s.pmm.total_pages → used s.pmm.bitmap j ≡ true
Shares kern s (ok (pd_phys, t)) =
    Allocated s.pmm pd_phys t.pmm
    × ((virt : ℕ) → pd_index virt < 768 → translate t.frames (pd_phys / 0x1000) virt ≡ none)
    × ((virt : ℕ)
        → 768 ≤ pd_index virt
        → pd_index virt < temp_pd_slot
        → translate t.frames (pd_phys / 0x1000) virt ≡ translate s.frames kern virt)
    × ((virt : ℕ)
        → pd_index virt < temp_pd_slot
        → translate t.frames kern virt ≡ translate s.frames kern virt)

-- In a kernel whose directory and tables lie in distinct frames of the allocator,
-- `uprocess_create_pagedir` panics only if no frame is free. Otherwise the new directory lies in the
-- lowest free frame. It maps no page of the user's half, takes every address of the kernel's half
-- below the windows where the kernel's directory takes it, and leaves the kernel's own map as it was.
pub uprocess_create_pagedir_lem :
    (kern : ℕ) (s : Space) → IsSpace kern s → Shares kern s (uprocess_create_pagedir s kern)
unfolding translate walk_table
uprocess_create_pagedir_lem kern s p =
    shares (uprocess_create_pagedir s kern) (create_pagedir-Created kern s p.valid p.dir_used)
  where
    shares : (o : Outcome (ℕ × Space)) → Created kern s o → Shares kern s o
    shares panic full = full
    shares (ok (a, t)) (al, v', f) = (
      al,
      λ virt h. ground (arith, f.user_half (pd_index virt) h),
      λ virt lo hi.
          translate-two_words s.frames t.frames kern (a / 0x1000) virt
            (f.kernel_half (pd_index virt) lo (omega arith) (λ e. omega arith))
            (kept virt (omega arith)),
      λ virt h.
          translate-two_words s.frames t.frames kern kern virt
            (f.others kern (pd_index virt) (λ e. ground (arith, al.was_free, p.dir_used))
              (ground arith))
            (kept virt (omega arith)),
    )
      where
        kept :
            (virt : ℕ)
            → pd_index virt < recursive_slot
            → is_present (s.frames kern (pd_index virt)) ≡ true
            → t.frames (frame_of (s.frames kern (pd_index virt))) (pt_index virt)
              ≡ s.frames (frame_of (s.frames kern (pd_index virt))) (pt_index virt)
        kept virt h there =
            f.others (frame_of (s.frames kern (pd_index virt))) (pt_index virt)
              (λ e. ground (arith, al.was_free, p.table_used (pd_index virt) h there))
              (ground (arith, p.not_dir (pd_index virt) h there))
