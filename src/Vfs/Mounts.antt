-- ===== src/Vfs/Mounts.antt =====
-- The mount table of src/vfs/vfs.c: `find_mount` and `vfs_mount`.
use frog_kernel.Base.{
  ℕ, zero, suc, ◌+◌, ◌-◌, ◌<◌, ◌≤◌, ◌≡◌, ◌≢◌, refl, sym, ap, ◌∙◌, ◌⊎◌, Bool, true, false, ◌&&◌,
  Option, none, some, [], ◌∷◌, ◌==◌, leb, ltb, arith, Bool-cases, inl, inr, take, length,
}
use frog_kernel.Base.Int.{ℤ, pos, is_zero, is_neg, is_zero_iff}
use frog_kernel.Misc.Util.{Text, strlen, strncmp}
use frog_kernel.Misc.Util.Text.{IsText, strlen-length}
use frog_kernel.Misc.Util.Compare.{strncmp-zero_iff}
use frog_kernel.Vfs.{Drivers, Vfs, max_mounts, max_path, minus_one, find_mount_from, find_mount}
use frog_kernel.Vfs.Calls.{vfs_mount}

-- The text `p` begins the text `s`.
abbrev pub Begins : Text → Text → Type 0
Begins p s = take (length p) s ≡ p

take-length : (p : Text) → take (length p) p ≡ p
take-length [] = refl
take-length (c ∷ p) = rw (take-length p)

-- The test of the loop for slot `j`.
module _ {W : Type 0} (s : Vfs W) (path : Text) where
  len : ℕ → ℕ
  len j = strlen (s.mount_table j).path

  hit : ℕ → Bool
  unfolding len
  hit j = is_zero (strncmp (s.mount_table j).path path (len j))

  -- What the loop over slots `i` to `i + n - 1` returns, from the match `best` of length `bl`.
  Best : (n i : ℕ) → (best : Option ℕ) → (bl : ℕ) → Option ℕ → Type 0
  Best n i best bl o =
      ((o ≡ best) × ((j : ℕ) → i ≤ j → j < i + n → hit j ≡ true → len j ≤ bl))
      ⊎ ((k : ℕ) × (o ≡ some k)
          × (i ≤ k)
          × (k < i + n)
          × (hit k ≡ true)
          × (bl < len k)
          × ((j : ℕ) → i ≤ j → j < i + n → hit j ≡ true → len j ≤ len k))

  find_mount_from-Best :
      (n i : ℕ) (best : Option ℕ) (bl : ℕ) → Best n i best bl (find_mount_from s path n i best bl)
  unfolding find_mount_from Best hit len
  find_mount_from-Best zero i best bl = inl (refl, λ j h k. absurd (omega arith))
  find_mount_from-Best (suc n) i best bl = elim (Bool-cases (hit i && ltb bl (len i))) [
    | inl better ↦
        rw (better, find_mount_from)
          (taken (find_mount_from s path n (i + 1) (some i) (len i)) better
            (find_mount_from-Best n (i + 1) (some i) (len i)))
    | inr worse ↦
        rw (worse, find_mount_from)
          (kept (find_mount_from s path n (i + 1) best bl) worse
            (find_mount_from-Best n (i + 1) best bl))
  ]
    where
      taken :
          (o : Option ℕ)
          → (hit i && ltb bl (len i)) ≡ true
          → Best n (i + 1) (some i) (len i) o
          → Best (suc n) i best bl o
      taken o b (inl (e, below)) = inr (
        i,
        e,
        omega arith,
        omega arith,
        ground arith,
        ground arith,
        λ j h k t. ground (arith, below j),
      )
      taken o b (inr (k, e, lo, hi, t, more, below)) =
          inr (k, e, omega arith, omega arith, t, ground arith, λ j h l u. ground (arith, below j))

      kept :
          (o : Option ℕ)
          → (hit i && ltb bl (len i)) ≡ false
          → Best n (i + 1) best bl o
          → Best (suc n) i best bl o
      kept o b (inl (e, below)) = inl (e, λ j h k t. ground (arith, below j))
      kept o b (inr (k, e, lo, hi, t, more, below)) =
          inr (k, e, omega arith, omega arith, t, more, λ j h l u. ground (arith, below j))

-- What is chosen: the longest of the mount paths that begin the path, and none only if no path but
-- the empty one does.
abbrev pub Chosen : {W : Type 0} → Vfs W → Text → Option ℕ → Type 0
Chosen s path none =
    (j : ℕ)
    → j < s.mount_count
    → Begins (s.mount_table j).path path
    → length (s.mount_table j).path ≡ 0
Chosen s path (some k) =
    (k < s.mount_count)
    × Begins (s.mount_table k).path path
    × ((j : ℕ)
        → j < s.mount_count
        → Begins (s.mount_table j).path path
        → length (s.mount_table j).path ≤ length (s.mount_table k).path)

module _ {W : Type 0} (s : Vfs W) (path : Text)
    (texts : (j : ℕ) → j < s.mount_count → IsText (s.mount_table j).path) (text : IsText path) where
  hit→Begins :
      (j : ℕ) → j < s.mount_count → hit s path j ≡ true → Begins (s.mount_table j).path path
  unfolding hit len
  hit→Begins j h t =
      let p = (s.mount_table j).path in
      let e = strlen-length p (texts j h) in
      let z = (is_zero_iff (strncmp p path (strlen p))).0 t in
      let same = (strncmp-zero_iff p path (strlen p) (texts j h) text).0 z in
      sym (rw e at same) ∙ take-length p

  Begins→hit :
      (j : ℕ) → j < s.mount_count → Begins (s.mount_table j).path path → hit s path j ≡ true
  unfolding hit len
  Begins→hit j h b =
      let p = (s.mount_table j).path in
      let e = strlen-length p (texts j h) in
      (is_zero_iff (strncmp p path (strlen p))).1
        ((strncmp-zero_iff p path (strlen p) (texts j h) text).1 (rw e (take-length p ∙ sym b)))

  len-length : (j : ℕ) → j < s.mount_count → len s path j ≡ length (s.mount_table j).path
  unfolding len
  len-length j h = strlen-length (s.mount_table j).path (texts j h)

  -- If the path and the mount paths are strings, `find_mount` chooses a mount with the longest path
  -- that begins the path, byte for byte and with no regard to components. It returns NULL only if no
  -- mount path but an empty one begins the path.
  pub find_mount_lem : Chosen s path (find_mount s path)
  unfolding find_mount Best
  find_mount_lem =
      chosen (find_mount_from s path s.mount_count 0 none 0)
        (find_mount_from-Best s path s.mount_count 0 none 0)
    where
      chosen : (o : Option ℕ) → Best s path s.mount_count 0 none 0 o → Chosen s path o
      chosen none (inl (e, below)) = λ j h b.
          omega (arith, below j (omega arith) (omega arith) (Begins→hit j h b), len-length j h)
      chosen none (inr (k, e, lo, hi, t, more, below)) = absurd (ground arith)
      chosen (some k) (inl (e, below)) = absurd (ground arith)
      chosen (some k) (inr (k', e, lo, hi, t, more, below)) =
          let same : k ≡ k' = ground arith in
          (
            omega arith,
            hit→Begins k (omega arith) (rw same t),
            λ j h b. omega (
              arith,
              below j (omega arith) (omega arith) (Begins→hit j h b),
              len-length j h,
              len-length k (omega arith),
              ap (len s path) same,
            ),
          )

module _ {W : Type 0} (drv : Drivers W) where
  -- The two outcomes of `vfs_mount`.
  abbrev pub Attached : Vfs W → Text → (driver : ℕ) → ℤ × Vfs W → Type 0
  Attached s path driver out =
      let (r, w) = drv.mount driver s.world in
      let root = (drv.get_root driver w).0 in
      ((j : ℕ) → j < s.mount_count → out.1.mount_table j ≡ s.mount_table j)
      × (out.1.tables ≡ s.tables)
      × (out.1.files ≡ s.files)
      × (((out.0 ≡ minus_one)
            × (out.1.mount_count ≡ s.mount_count)
            × ((max_mounts ≤ s.mount_count) ⊎ ((is_neg r ≡ true) ⊎ (root ≡ 0))))
          ⊎ ((out.0 ≡ pos 0)
              × (s.mount_count < max_mounts)
              × (is_neg r ≡ false)
              × (out.1.mount_count ≡ s.mount_count + 1)
              × ((out.1.mount_table s.mount_count).path ≡ take (max_path - 1) path)
              × ((out.1.mount_table s.mount_count).driver ≡ driver)
              × ((out.1.mount_table s.mount_count).root ≡ root)
              × (root ≢ 0)))

  -- `vfs_mount` returns -1 exactly if the table of mounts is full, the driver's `mount` gives a negative
  -- number, or its `get_root` then gives NULL; the number of mounts stays. Otherwise it returns 0 and
  -- adds a mount whose path is the first 255 characters of the path, with the driver and the root that
  -- the driver gave. The mounts that were there, the descriptors and the files stay.
  pub vfs_mount_lem :
      (s : Vfs W) (path : Text) (driver : ℕ) → Attached s path driver (vfs_mount drv s path driver)
  unfolding vfs_mount
  vfs_mount_lem s path driver = elim (Bool-cases (leb max_mounts s.mount_count)) [
    | inl full ↦ rw full (λ j h. refl, refl, refl, inl (refl, refl, inl (ground (arith, full))))
    | inr room ↦ rw room (elim (Bool-cases (is_neg (drv.mount driver s.world).0)) [
      | inl bad ↦ rw bad (λ j h. ground arith, refl, refl, inl (refl, refl, inr (inl refl)))
      | inr good ↦
          rw good (elim (Bool-cases ((drv.get_root driver (drv.mount driver s.world).1).0 == 0)) [
            | inl null ↦ rw null (
              λ j h. ground arith,
              refl,
              refl,
              inl (refl, refl, inr (inr (ground (arith, null)))),
            )
            | inr root ↦ rw root (
              λ j h. ground arith,
              refl,
              refl,
              inr (
                refl,
                ground (arith, room),
                refl,
                refl,
                ground arith,
                ground arith,
                ground arith,
                ground (arith, root),
              ),
            )
          ])
    ])
  ]
