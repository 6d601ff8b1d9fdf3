-- ===== src/Vfs/Resolve.antt =====
-- `vfs_resolve` of src/vfs/vfs.c walks the components of a path.
use mathlib.Core.Option
use mathlib.Core.List.{append-nil, append_assoc}
use frog_kernel.Base.{
  ℕ, zero, suc, ◌<◌, ◌≤◌, ◌≡◌, ◌≢◌, refl, ap, ◌∙◌, true, false, Option, none, some, List, [], ◌∷◌,
  ◌++◌, ◌==◌, arith, Bool-cases, inl, inr, if◌then◌else◌, length, drop, leb,
}
use frog_kernel.Misc.Util.{Text, strlen}
use frog_kernel.Vfs.{
  Drivers, Vfs, max_path, skip_slashes, take_component, lookup_child, resolve_child, resolve_round,
  resolve_loop, find_mount, cross_mount, resolve_from, vfs_resolve,
}

-- The components of a path: the pieces between slashes that are not empty. `cur` is the piece that is
-- being read.
unfoldable pub flush : Text → List Text → List Text
flush [] cs = cs
flush (c ∷ s) cs = (c ∷ s) ∷ cs

unfoldable pub split_from : (cur : Text) → Text → List Text
unfolding flush
split_from cur [] = flush cur []
split_from cur (c ∷ s) = elim (c == b'/') [
  | true ↦ flush cur (split_from [] s)
  | false ↦ split_from (cur ++ c ∷ []) s
]

unfoldable pub components : Text → List Text
unfolding split_from
components path = split_from [] path

skip_slashes-split : (s : Text) → components (skip_slashes s) ≡ components s
unfolding components skip_slashes
skip_slashes-split [] = refl
skip_slashes-split (c ∷ s) = elim (Bool-cases (c == b'/')) [
  | inl e ↦ rw (e, skip_slashes, split_from) (skip_slashes-split s)
  | inr e ↦ rw (e, skip_slashes, split_from, e, split_from)
]

length-skip_slashes : (s : Text) → length (skip_slashes s) ≤ length s
unfolding skip_slashes
length-skip_slashes [] = omega arith
length-skip_slashes (c ∷ s) = ground (arith, length-skip_slashes s)

take_component-split :
    (cur s : Text)
    → split_from cur s ≡ flush (cur ++ (take_component s).0) (components (take_component s).1)
unfolding components take_component split_from
take_component-split cur [] = rw append-nil
take_component-split cur (c ∷ s) = elim (Bool-cases (c == b'/')) [
  | inl e ↦ rw (e, take_component, split_from, append-nil, e, split_from)
  | inr e ↦
      rw (e, take_component, split_from)
        (take_component-split (cur ++ c ∷ []) s
          ∙ ap (λ t. flush t (components (take_component s).1))
              (append_assoc cur (c ∷ []) (take_component s).0))
]

length-take_component : (s : Text) → length (take_component s).1 ≤ length s
unfolding take_component
length-take_component [] = omega arith
length-take_component (c ∷ s) = ground (arith, length-take_component s)

take_component-cons :
    (c : ℕ) (s : Text)
    → c ≢ b'/'
    → take_component (c ∷ s) ≡ (c ∷ (take_component s).0, (take_component s).1)
unfolding take_component
take_component-cons c s ne = let e : (c == b'/') ≡ false = ground arith in rw (e, take_component)

components-cons :
    (c : ℕ) (s : Text)
    → c ≢ b'/'
    → components (c ∷ s) ≡ (c ∷ (take_component s).0) ∷ components (take_component s).1
unfolding components split_from
components-cons c s ne =
    let e : (c == b'/') ≡ false = ground arith in
    rw (e, split_from) (take_component-split (c ∷ []) s)

-- What the walk goes to from a text without leading slashes.
skip_slashes_first : (s t : Text) (c : ℕ) → skip_slashes s ≡ c ∷ t → c ≢ b'/'
unfolding skip_slashes
skip_slashes_first [] t c h = absurd (ground arith)
skip_slashes_first (d ∷ s) t c h = ground (arith, skip_slashes_first s t c)

pub length-drop-le : (n : ℕ) (s : Text) → length (drop n s) ≤ length s
length-drop-le zero s = omega arith
length-drop-le (suc n) [] = omega arith
length-drop-le (suc n) (c ∷ s) = omega (arith, length-drop-le n s)

module _ {W : Type 0} (drv : Drivers W) where
  -- The walk over a list of components: from parent to child, up to the first that is missing or too
  -- long.
  unfoldable pub descend : (node : ℕ) → List Text → W → Option (ℕ × W)
  descend node [] w = some (node, w)
  descend node (name ∷ names) w =
      let (child, w') = lookup_child drv node name w in
      elim (leb max_path (length name)) [
        | true ↦ none
        | false ↦ elim (child == 0) [ true ↦ some (0, w') | false ↦ descend child names w' ]
      ]

  resolve_round-descend :
      (again : ℕ → Text → W → Option (ℕ × W)) (n node : ℕ) (s : Text) (w : W)
      → ((child : ℕ) (rest : Text) (w' : W)
          → length rest < n
          → again child rest w' ≡ descend child (components rest) w')
      → length s ≤ n
      → ((t : Text) (c : ℕ) → s ≡ c ∷ t → c ≢ b'/')
      → resolve_round drv again node s w ≡ descend node (components s) w
  unfolding resolve_round resolve_child descend
  resolve_round-descend again n node [] w ih h first = unfold components in refl
  resolve_round-descend again n node (c ∷ s) w ih h first =
      let ne = first s c refl in
      let name = c ∷ (take_component s).0 in
      rw (components-cons c s ne, take_component-cons c s ne)
        (elim (Bool-cases (leb max_path (length name))) [
          | inl long ↦ rw (long, resolve_child, descend)
          | inr short ↦ elim (Bool-cases ((lookup_child drv node name w).0 == 0)) [
            | inl missing ↦ rw (short, missing, resolve_child, descend)
            | inr there ↦
                rw (short, there, resolve_child, descend)
                  (ih (lookup_child drv node name w).0 (take_component s).1
                    (lookup_child drv node name w).1 (omega (arith, length-take_component s)))
          ]
        ])

  resolve_loop-descend :
      (f node : ℕ) (rel : Text) (w : W)
      → length rel < f
      → resolve_loop drv f node rel w ≡ descend node (components rel) w
  unfolding resolve_loop
  resolve_loop-descend zero node rel w h = absurd (omega arith)
  resolve_loop-descend (suc f) node rel w h = rw (← skip_slashes-split rel) (
      resolve_round-descend (resolve_loop drv f) (length rel) node (skip_slashes rel) w
        (λ child rest w' k. resolve_loop-descend f child rest w' (omega arith))
        (length-skip_slashes rel) (skip_slashes_first rel))

  -- The node that a path stands for, given its mount.
  unfoldable pub node_at : Vfs W → Text → Option ℕ → Option (ℕ × W)
  unfolding components
  node_at s path none = some (0, s.world)
  node_at s path (some i) =
      if (s.mount_table i).root == 0
      then some (0, s.world)
      else Option.map (cross_mount drv) (
          descend (s.mount_table i).root (components (drop (strlen (s.mount_table i).path) path))
            s.world)

  resolve_from-node_at :
      (s : Vfs W) (path : Text) (o : Option ℕ) → resolve_from drv s path o ≡ node_at s path o
  unfolding resolve_from node_at
  resolve_from-node_at s path none = refl
  resolve_from-node_at s path (some i) = elim (Bool-cases ((s.mount_table i).root == 0)) [
    | inl null ↦ rw (null, resolve_from, node_at)
    | inr root ↦ rw (
      root,
      resolve_from,
      node_at,
      resolve_loop-descend (suc (length path)) (s.mount_table i).root
          (drop (strlen (s.mount_table i).path) path) s.world
          (omega (arith, length-drop-le (strlen (s.mount_table i).path) path)),
    )
  ]

  pub vfs_resolve-node_at :
      (s : Vfs W) (path : Text) → vfs_resolve drv s path ≡ node_at s path (find_mount s path)
  unfolding vfs_resolve
  vfs_resolve-node_at s path = resolve_from-node_at s path (find_mount s path)
