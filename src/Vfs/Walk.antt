-- ===== src/Vfs/Walk.antt =====
-- What `vfs_resolve` of src/vfs/vfs.c promises: the steps of a walk, by the fields of the nodes.
use mathlib.Core.Option
use mathlib.Core.Path.{subst}
use frog_kernel.Base.{
  ℕ, ◌+◌, ◌/◌, ◌%◌, ◌<◌, ◌≤◌, ◌≡◌, ◌≢◌, ◌⊎◌, inl, inr, refl, sym, ◌∙◌, true, false, Bool-cases,
  Option-cases, not, ◌&&◌, ◌||◌, Option, none, some, List, [], ◌∷◌, ◌++◌, ◌==◌, arith,
  if◌then◌else◌, length, drop, leb, length-append,
}
use frog_kernel.Misc.Util.{Text, strlen}
use frog_kernel.Vfs.{
  Drivers, Vfs, max_path, lookup_child, finddir, cross_mount, find_mount, vfs_resolve,
}
use frog_kernel.Vfs.Resolve.{
  flush, split_from, components, descend, node_at, vfs_resolve-node_at, length-drop-le,
}

module _ {W : Type 0} (drv : Drivers W) where
  -- The flags say that a node is a directory, or that something may be mounted there.
  abbrev pub IsOpen : (flags : ℕ) → Type 0
  IsOpen flags = (flags / 2 % 2 ≡ 1) ⊎ (flags / 64 % 2 ≡ 1)

  -- The node in whose directory a name is looked up.
  abbrev pub inside : W → (node : ℕ) → ℕ
  inside w node = if drv.mounted_here w node == 0 then node else drv.mounted_here w node

  -- A walk from a node through some names, and where it ends: at a node, NULL where it breaks off, or
  -- `none` where the buffer for a name is too small.
  pub data Walk : (node : ℕ) → List Text → W → Option (ℕ × W) → Type 0 where
    arrived : (node : ℕ) (w : W) → Walk node [] w (some (node, w))
    too_long :
        (node : ℕ) (name : Text) (names : List Text) (w : W)
        → 256 ≤ length name
        → Walk node (name ∷ names) w none
    no_directory :
        (node : ℕ) (name : Text) (names : List Text) (w : W)
        → length name < 256
        → (IsOpen (drv.flags w node) → ⊥)
        → Walk node (name ∷ names) w (some (0, w))
    no_finddir :
        (node : ℕ) (name : Text) (names : List Text) (w : W)
        → length name < 256
        → IsOpen (drv.flags w node)
        → drv.finddir_op w (inside w node) ≡ none
        → Walk node (name ∷ names) w (some (0, w))
    missing :
        (node : ℕ) (name : Text) (names : List Text) (w : W) (f : Text → W → ℕ × W)
        → length name < 256
        → IsOpen (drv.flags w node)
        → drv.finddir_op w (inside w node) ≡ some f
        → (f name w).0 ≡ 0
        → Walk node (name ∷ names) w (some (0, (f name w).1))
    child :
        (node : ℕ) (name : Text) (names : List Text) (w : W) (f : Text → W → ℕ × W)
        (r : Option (ℕ × W))
        → length name < 256
        → IsOpen (drv.flags w node)
        → drv.finddir_op w (inside w node) ≡ some f
        → (f name w).0 ≢ 0
        → Walk (f name w).0 names (f name w).1 r
        → Walk node (name ∷ names) w r

  -- What one look for a child gives.
  Looked : (node : ℕ) → Text → W → ℕ × W → Type 0
  Looked node name w q =
      ((IsOpen (drv.flags w node) → ⊥) × (q ≡ (0, w)))
      ⊎ (IsOpen (drv.flags w node)
          × (((drv.finddir_op w (inside w node) ≡ none) × (q ≡ (0, w)))
              ⊎ ((f : Text → W → ℕ × W) × (drv.finddir_op w (inside w node) ≡ some f)
                  × (q ≡ f name w))))

  lookup_child-Looked :
      (node : ℕ) (name : Text) (w : W) → Looked node name w (lookup_child drv node name w)
  unfolding lookup_child finddir Looked
  lookup_child-Looked node name w =
      elim (Bool-cases (not (drv.flags w node / 2 % 2 == 1 || drv.flags w node / 64 % 2 == 1))) [
        | inl shut ↦ rw shut (inl (ground (arith, shut), refl))
        | inr opened ↦ rw opened (
            inr (
              ground (arith, opened),
              elim (Option-cases (drv.finddir_op w (inside w node))) [
                | inl e ↦ inl (e, rw (finddir, e) refl)
                | inr (f, e) ↦ inr (f, e, rw (finddir, e) refl)
              ],
            ))
      ]

  step_of : (names : List Text) → ℕ × W → Option (ℕ × W)
  step_of names q = elim (q.0 == 0) [ true ↦ some (0, q.1) | false ↦ descend drv q.0 names q.1 ]

  step-Walk :
      (node : ℕ) (name : Text) (names : List Text) (w : W) (q : ℕ × W)
      → length name < 256
      → ((n : ℕ) (v : W) → Walk n names v (descend drv n names v))
      → Looked node name w q
      → Walk node (name ∷ names) w (step_of names q)
  unfolding Looked step_of
  step-Walk node name names w q lt later (inl (shut, e)) =
      subst (λ x. Walk node (name ∷ names) w (step_of names x)) (sym e)
        (no_directory node name names w lt shut)
  step-Walk node name names w q lt later (inr (opened, inl (e, z))) =
      subst (λ x. Walk node (name ∷ names) w (step_of names x)) (sym z)
        (no_finddir node name names w lt opened e)
  step-Walk node name names w q lt later (inr (opened, inr (f, e, z))) =
      subst (λ x. Walk node (name ∷ names) w (step_of names x)) (sym z)
        (elim (Bool-cases ((f name w).0 == 0)) [
          | inl gone ↦
              rw (step_of, gone) (missing node name names w f lt opened e (ground (arith, gone)))
          | inr there ↦
              rw (step_of, there)
                (child node name names w f _ lt opened e (ground (arith, there))
                  (later (f name w).0 (f name w).1))
        ])

  descend-Walk :
      (node : ℕ) (names : List Text) (w : W) → Walk node names w (descend drv node names w)
  unfolding descend step_of
  descend-Walk node [] w = arrived node w
  descend-Walk node (name ∷ names) w = elim (Bool-cases (leb max_path (length name))) [
    | inl long ↦ rw (descend, long) (too_long node name names w (ground (arith, long)))
    | inr short ↦
        rw (descend, short)
          (step-Walk node name names w (lookup_child drv node name w) (ground (arith, short))
            (λ n v. descend-Walk n names v) (lookup_child-Looked node name w))
  ]

  -- What the end of a walk makes of the node: it crosses into what is mounted there.
  abbrev pub Lands : Option (ℕ × W) → Option (ℕ × W) → Type 0
  Lands none r = r ≡ none
  Lands (some (node, w)) r =
      ((node ≢ 0)
        × (drv.flags w node / 64 % 2 ≡ 1)
        × (drv.mounted_here w node ≢ 0)
        × (r ≡ some (drv.mounted_here w node, w)))
      ⊎ (((node ≡ 0) ⊎ ((drv.flags w node / 64 % 2 ≢ 1) ⊎ (drv.mounted_here w node ≡ 0)))
          × (r ≡ some (node, w)))

  -- The result for a path, given its mount.
  abbrev pub Resolves : Vfs W → Text → Option ℕ → Option (ℕ × W) → Type 0
  Resolves s path none r = r ≡ some (0, s.world)
  Resolves s path (some i) r =
      let root = (s.mount_table i).root in
      ((root ≡ 0) × (r ≡ some (0, s.world)))
      ⊎ ((root ≢ 0)
          × ((q : Option (ℕ × W)) × Walk root
                (components (drop (strlen (s.mount_table i).path) path)) s.world q
              × Lands q r))

  lands : (q : Option (ℕ × W)) → Lands q (Option.map (cross_mount drv) q)
  unfolding cross_mount
  lands none = refl
  lands (some (node, w)) =
      elim (Bool-cases
        (not (node == 0) && drv.flags w node / 64 % 2 == 1 && not (drv.mounted_here w node == 0))) [
          | inl crosses ↦ inl (
            ground (arith, crosses),
            ground (arith, crosses),
            ground (arith, crosses),
            rw (cross_mount, crosses) refl,
          )
          | inr stays ↦ inr (ground (arith, stays), rw (cross_mount, stays) refl)
        ]

  node_at-Resolves :
      (s : Vfs W) (path : Text) (o : Option ℕ) → Resolves s path o (node_at drv s path o)
  unfolding node_at
  node_at-Resolves s path none = refl
  node_at-Resolves s path (some i) = elim (Bool-cases ((s.mount_table i).root == 0)) [
    | inl null ↦ rw null (inl (ground (arith, null), refl))
    | inr root ↦
        let rel = components (drop (strlen (s.mount_table i).path) path) in
        let q = descend drv (s.mount_table i).root rel s.world in
        rw root (
          inr (ground (arith, root), (q, descend-Walk (s.mount_table i).root rel s.world, lands q)))
  ]

  -- `vfs_resolve` ends within its fuel. It gives NULL if no mount is found or its root is NULL.
  -- Otherwise it walks from the root through the components of the rest of the path, and at the end
  -- crosses into what is mounted there. A step needs a node that is a directory or a mount point, goes
  -- into what is mounted there, and asks its `finddir`; the walk breaks off with NULL where one of them
  -- is missing or finds nothing. At a component of 256 characters or more the code writes past the end
  -- of its buffer, and nothing is said of what follows.
  pub vfs_resolve_lem :
      (s : Vfs W) (path : Text) → Resolves s path (find_mount s path) (vfs_resolve drv s path)
  vfs_resolve_lem s path =
      rw (vfs_resolve-node_at drv s path) (node_at-Resolves s path (find_mount s path))

-- The names of a list have at most `n` characters.
abbrev Short : (n : ℕ) → List Text → Type 0
Short n [] = Unit
Short n (name ∷ names) = (length name ≤ n) × Short n names

flush-Short :
    (n : ℕ) (s : Text) (names : List Text) → length s ≤ n → Short n names → Short n (flush s names)
unfolding flush
flush-Short n [] names h k = k
flush-Short n (c ∷ s) names h k = (h, k)

split_from-Short : (n : ℕ) (cur s : Text) → length cur + length s ≤ n → Short n (split_from cur s)
unfolding split_from
split_from-Short n cur [] h = flush-Short n cur [] (omega arith) tt
split_from-Short n cur (c ∷ s) h = elim (Bool-cases (c == b'/')) [
  | inl slash ↦
      rw (split_from, slash)
        (flush-Short n cur (split_from [] s) (omega arith) (split_from-Short n [] s (omega arith)))
  | inr other ↦
      rw (split_from, other)
        (split_from-Short n (cur ++ c ∷ []) s (omega (arith, h, length-append cur (c ∷ []))))
]

module _ {W : Type 0} (drv : Drivers W) where
  Short-descend :
      (node : ℕ) (names : List Text) (w : W)
      → Short 255 names
      → (q : ℕ × W) × (descend drv node names w ≡ some q)
  unfolding descend
  Short-descend node [] w h = ((node, w), refl)
  Short-descend node (name ∷ names) w (lt, h) =
      elim (Bool-cases ((lookup_child drv node name w).0 == 0)) [
        | inl gone ↦ ((0, (lookup_child drv node name w).1), rw (descend, fits lt, gone) refl)
        | inr there ↦
            let (q, e) =
              Short-descend (lookup_child drv node name w).0 names (lookup_child drv node name w).1
                h in
            (q, rw (descend, fits lt, there) e)
      ]
    where
      fits : length name ≤ 255 → leb max_path (length name) ≡ false
      fits lt = ground (arith, lt)

  node_at-short :
      (s : Vfs W) (path : Text) (o : Option ℕ)
      → length path < 256
      → (q : ℕ × W) × (node_at drv s path o ≡ some q)
  unfolding node_at components
  node_at-short s path none h = ((0, s.world), refl)
  node_at-short s path (some i) h = elim (Bool-cases ((s.mount_table i).root == 0)) [
    | inl null ↦ ((0, s.world), rw null refl)
    | inr root ↦
        let rel = drop (strlen (s.mount_table i).path) path in
        let (q, e) = Short-descend (s.mount_table i).root (split_from [] rel) s.world (
          split_from-Short 255 [] rel
            (omega (arith, h, length-drop-le (strlen (s.mount_table i).path) path))) in
        (cross_mount drv q, rw (root, e) refl)
  ]

  -- A path of fewer than 256 characters is resolved without a write past the end of the buffer.
  pub vfs_resolve-short :
      (s : Vfs W) (path : Text)
      → length path < 256
      → (q : ℕ × W) × (vfs_resolve drv s path ≡ some q)
  vfs_resolve-short s path h =
      let (q, e) = node_at-short s path (find_mount s path) h in
      (q, vfs_resolve-node_at drv s path ∙ e)
