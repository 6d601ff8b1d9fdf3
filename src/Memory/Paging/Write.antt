-- ===== src/Memory/Paging/Write.antt =====
-- Writes to a page table, and the processor's walk after them.
use frog_kernel.Base.{
  ℕ, ◌+◌, ◌*◌, ◌%◌, ◌<◌, ◌≡◌, ◌≢◌, sym, ◌⊎◌, inl, inr, true, none, some, arith, if◌then◌else◌,
}
use frog_kernel.Memory.Paging.{
  Frames, Space, recursive_slot, store, is_present, frame_of, pd_index, pt_index,
}
use frog_kernel.Memory.Paging.Walk.{walk_table, translate, IsSpace}

module _ (m : Frames) (f i v : ℕ) where
  pub store_self : store m f i v f i ≡ v
  unfolding store
  store_self = ground arith

  pub store_other : (g j : ℕ) → (g ≢ f) ⊎ (j ≢ i) → store m f i v g j ≡ m g j
  unfolding store
  store_other g j h = ground arith

-- A word of a table is written: the directory and the other tables stay.
module _ {dir : ℕ} {s : Space} (p : IsSpace dir s) (pdi pti v : ℕ) (small : pdi < recursive_slot)
    (there : is_present (s.frames dir pdi) ≡ true) where
  unfoldable pub written : Frames
  written = store s.frames (frame_of (s.frames dir pdi)) pti v

  pub dir_kept : (j : ℕ) → written dir j ≡ s.frames dir j
  unfolding written
  dir_kept j =
      store_other s.frames (frame_of (s.frames dir pdi)) pti v dir j
        (inl (λ e. p.not_dir pdi small there (sym e)))

  pub written-IsSpace : IsSpace dir (record s { frames = written })
  written-IsSpace = record {
    valid = p.valid;
    dir_used = p.dir_used;
    table_used = λ i h t. ground (arith, dir_kept i, p.table_used i);
    not_dir = λ i h t. ground (arith, dir_kept i, p.not_dir i);
    distinct = λ i j h k t u e. ground (arith, dir_kept i, dir_kept j, p.distinct i j);
  }

  pub translate-written_other :
      (virt : ℕ)
      → pd_index virt < recursive_slot
      → (pd_index virt ≢ pdi) ⊎ (pt_index virt ≢ pti)
      → translate written dir virt ≡ translate s.frames dir virt
  unfolding written translate walk_table
  translate-written_other virt h (inl ne) = ground (
    arith,
    dir_kept (pd_index virt),
    p.distinct (pd_index virt) pdi,
    store_other s.frames (frame_of (s.frames dir pdi)) pti v
        (frame_of (s.frames dir (pd_index virt))) (pt_index virt),
  )
  translate-written_other virt h (inr ne) = ground (
    arith,
    dir_kept (pd_index virt),
    store_other s.frames (frame_of (s.frames dir pdi)) pti v
        (frame_of (s.frames dir (pd_index virt))) (pt_index virt),
  )

  pub translate-written_self :
      (virt : ℕ)
      → pd_index virt ≡ pdi
      → pt_index virt ≡ pti
      → translate written dir virt
        ≡ (if is_present v then some (frame_of v * 0x1000 + virt % 0x1000) else none)
  unfolding written translate walk_table
  translate-written_self virt e f =
      rw (e, dir_kept pdi, there, f, store_self s.frames (frame_of (s.frames dir pdi)) pti v)
