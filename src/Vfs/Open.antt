-- ===== src/Vfs/Open.antt =====
-- `vfs_open` of src/vfs/vfs.c, from the node that the path resolves to up to the descriptor.
use mathlib.Core.Option
use frog_kernel.Base.{
  ℕ, ◌<◌, ◌≡◌, ◌≢◌, refl, sym, ap, ◌∙◌, ◌⊎◌, Option, none, some, true, false, ◌==◌, arith,
  Bool-cases, inl, inr, if◌then◌else◌, length,
}
use frog_kernel.Base.Int.{ℤ, pos, negsuc, is_neg}
use frog_kernel.Misc.Util.{Text}
use frog_kernel.Vfs.{Drivers, File, Vfs, max_fds, minus_one, get_file, vfs_resolve}
use frog_kernel.Vfs.Calls.{set_world, keep_fd, open_file, open_node, vfs_open}
use frog_kernel.Vfs.Fds.{Opened, alloc_fd_lem}
use frog_kernel.Vfs.Walk.{vfs_resolve-short}

abbrev fresh_file : (node flags : ℕ) → File
fresh_file node flags = record { vnode = node; offset = 0; flags = flags; ref_count = 1 }

module _ {W : Type 0} (drv : Drivers W) where
  -- A descriptor for a new file, of which the heap gave the block `file`: none is free and the block
  -- goes back, or the lowest free one of the active table is taken.
  abbrev pub Takes : Vfs W → (node flags file : ℕ) → W → ℤ × Vfs W → Type 0
  Takes s node flags file w (negsuc n, s') =
      (n ≡ 0)
      × ((j : ℕ) → j < max_fds → s.tables s.curr_process j ≢ 0)
      × (s'.tables ≡ s.tables)
      × (s'.world ≡ drv.kfree file w)
  Takes s node flags file w (pos fd, s') =
      (fd < max_fds)
      × (s.tables s.curr_process fd ≡ 0)
      × ((j : ℕ) → j < fd → s.tables s.curr_process j ≢ 0)
      × (get_file s' (pos fd) ≡ file)
      × ((j : ℕ) → j ≢ fd → s'.tables s.curr_process j ≡ s.tables s.curr_process j)
      × (s'.files file ≡ fresh_file node flags)
      × ((f : ℕ) → f ≢ file → s'.files f ≡ s.files f)
      × (s'.world ≡ w)

  -- A `file_t` is 16 bytes.
  abbrev pub Makes : Vfs W → (node flags : ℕ) → W → ℤ × Vfs W → Type 0
  Makes s node flags w r =
      let (file, w') = drv.kmalloc 16 w in
      ((file ≡ 0) × (r ≡ (minus_one, set_world s w'))) ⊎ ((file ≢ 0) × Takes s node flags file w' r)

  -- The driver of the node may refuse it.
  abbrev pub Asks : Vfs W → (node flags : ℕ) → W → Option (ℕ → W → ℤ × W) → ℤ × Vfs W → Type 0
  Asks s node flags w none r = Makes s node flags w r
  Asks s node flags w (some f) r =
      let (n, w') = f flags w in
      ((is_neg n ≡ true) × (r ≡ (minus_one, set_world s w')))
      ⊎ ((is_neg n ≡ false) × Makes s node flags w' r)

  -- The outcomes of `vfs_open`, given what the path resolves to.
  abbrev pub Opens : Vfs W → (flags : ℕ) → ℕ × W → ℤ × Vfs W → Type 0
  Opens s flags (node, w) r =
      ((node ≡ 0) × (r ≡ (minus_one, set_world s w)))
      ⊎ ((node ≢ 0) × Asks s node flags w (drv.open_op w node) r)

  keep_fd-Takes :
      (s t : Vfs W) (node flags file : ℕ) (w : W) (r : ℤ × Vfs W)
      → t.tables ≡ s.tables
      → t.curr_process ≡ s.curr_process
      → t.files file ≡ fresh_file node flags
      → ((f : ℕ) → f ≢ file → t.files f ≡ s.files f)
      → t.world ≡ w
      → Opened t file r
      → Takes s node flags file w (keep_fd drv file r)
  unfolding keep_fd
  keep_fd-Takes s t node flags file w (negsuc n, s') e c new old v (same, full) = (
    refl,
    λ j h z. full j h (ap (λ g. g t.curr_process j) e ∙ ap (λ p. s.tables p j) c ∙ z),
    ap (λ u. u.tables) same ∙ e,
    ap (drv.kfree file) (ap (λ u. u.world) same ∙ v),
  )
  keep_fd-Takes s t node flags file w (pos fd, s') e c new old v
        (lt, free, low, at, other, rest, files, world) =
      let same : (j : ℕ) → t.tables t.curr_process j ≡ s.tables s.curr_process j =
        λ j i. e i (c i) j in
      (
        lt,
        sym (same fd) ∙ free,
        λ j h z. low j h (same j ∙ z),
        at,
        λ j h. ap (λ k. s'.tables k j) (sym c) ∙ rest j h ∙ same j,
        ap (λ g. g file) files ∙ new,
        λ f ne. ap (λ g. g f) files ∙ old f ne,
        world ∙ v,
      )

  open_file-Makes :
      (s : Vfs W) (node flags : ℕ) (w : W)
      → Makes s node flags w (open_file drv (set_world s w) node flags)
  unfolding open_file
  open_file-Makes s node flags w = elim (Bool-cases ((drv.kmalloc 16 w).0 == 0)) [
    | inl null ↦ rw null (inl (ground (arith, null), refl))
    | inr got ↦ rw got (
        inr (
          ground (arith, got),
          keep_fd-Takes s _ node flags (drv.kmalloc 16 w).0 (drv.kmalloc 16 w).1 _ refl refl
              (ground arith) (λ f ne. ground arith) refl (alloc_fd_lem _ (drv.kmalloc 16 w).0),
        ))
  ]

  open_node-Opens : (s : Vfs W) (flags : ℕ) (q : ℕ × W) → Opens s flags q (open_node drv s flags q)
  unfolding open_node
  open_node-Opens s flags (node, w) = elim (Bool-cases (node == 0)) [
    | inl null ↦ rw null (inl (ground (arith, null), refl))
    | inr there ↦ rw there (inr (ground (arith, there), by_driver (drv.open_op w node)))
  ]
    where
      by_driver :
          (o : Option (ℕ → W → ℤ × W))
          → Asks s node flags w o (elim o [
            | none ↦ open_file drv (set_world s w) node flags
            | some f ↦
                let (r, w') = f flags w in
                if is_neg r
                then (minus_one, set_world s w')
                else open_file drv (set_world s w') node flags
          ])
      by_driver none = open_file-Makes s node flags w
      by_driver (some f) = elim (Bool-cases (is_neg (f flags w).0)) [
        | inl bad ↦ rw bad (inl (refl, refl))
        | inr good ↦ rw good (inr (refl, open_file-Makes s node flags (f flags w).1))
      ]

  -- `vfs_open` returns for a path of fewer than 256 characters. It gives -1 if the path resolves to
  -- NULL, if the driver's `open` of the node gives a negative number, or if the heap gives no block for
  -- the file, and then only the drivers and the heap have changed. With all 256 descriptors of the
  -- active table taken it gives -1 too: the block is freed and no descriptor changes. Otherwise it
  -- gives the lowest free one, which then names a new file in the block, on the node, with the flags,
  -- at offset 0 and with one reference; the other files and descriptors of the table stay.
  pub vfs_open_lem :
      (s : Vfs W) (path : Text) (flags : ℕ)
      → length path < 256
      → (q : ℕ × W) × (vfs_resolve drv s path ≡ some q)
        × ((r : ℤ × Vfs W) × (vfs_open drv s path flags ≡ some r) × Opens s flags q r)
  unfolding vfs_open
  vfs_open_lem s path flags h =
      let (q, e) = vfs_resolve-short drv s path h in
      (
        q,
        e,
        (
          open_node drv s flags q,
          ap (Option.map (open_node drv s flags)) e,
          open_node-Opens s flags q,
        ),
      )
