-- ===== src/Initrd/Fs/Read.antt =====
-- Reads and listings of src/initrd/initrdfs.c against the headers of the archive.
use frog_kernel.Base.{
  ℕ, zero, suc, ◌+◌, ◌-◌, ◌<◌, ◌≤◌, ◌≡◌, inl, inr, refl, true, false, Bool-cases, Option, none,
  some, List, [], ◌∷◌, length, get_elem?, ◌==◌, if◌then◌else◌, arith,
}
use frog_kernel.Base.Store.{Array}
use frog_kernel.Misc.Util.{Text}
use frog_kernel.Initrd.{Initrd, full_path, overruns, is_header, next_header}
use frog_kernel.Initrd.Archive.{Archive}
use frog_kernel.Initrd.Fs.{child_of, nth_child}

-- The headers from `ptr` on, as the loops meet them.
abbrev pub Headers : Array ℕ → (end ptr : ℕ) → List ℕ → Type 0
Headers mem end ptr [] = is_header mem end ptr ≡ false
Headers mem end ptr (h ∷ hs) =
    (ptr ≡ h)
    × (is_header mem end ptr ≡ true)
    × (overruns mem ptr ≡ false)
    × Headers mem end (next_header mem ptr) hs

-- The names of the children of a directory, in the order of the archive.
unfoldable pub children : Array ℕ → (dir : Text) → List ℕ → List Text
children mem dir [] = []
children mem dir (h ∷ hs) = elim (child_of dir (full_path mem h)) [
  | none ↦ children mem dir hs
  | some r ↦ r ∷ children mem dir hs
]

nth_step :
    (o : Option Text) (index found : ℕ) (cs : List Text) (same more : Option (Option Text))
    → found ≤ index
    → same ≡ some (get_elem? cs (index - found))
    → (found < index → more ≡ some (get_elem? cs (index - (found + 1))))
    → (elim o [ none ↦ same | some r ↦ if found == index then some (some r) else more ])
      ≡ some (get_elem? (elim o [ none ↦ cs | some r ↦ r ∷ cs ]) (index - found))
nth_step none index found cs same more k e f = e
nth_step (some r) index found cs same more k e f = elim (Bool-cases (found == index)) [
  | inl here ↦ rw (here, nothing_left here) refl
  | inr before ↦ rw (before, one_more before) (f (ground (arith, k, before)))
]
  where
    nothing_left : (found == index) ≡ true → index - found ≡ 0
    nothing_left h = ground (arith, h)

    one_more : (found == index) ≡ false → index - found ≡ suc (index - (found + 1))
    one_more h = ground (arith, k, h)

-- `initrd_dir_readdir` ends within a round for each header and one more, and the name that it gives
-- for an index is that of the child of the directory with that index, in the order of the archive;
-- behind the last child there is none.
pub nth_child_lem :
    (mem : Array ℕ) (end : ℕ) (dir : Text) (index fuel ptr found : ℕ) (hs : List ℕ)
    → Headers mem end ptr hs
    → length hs < fuel
    → found ≤ index
    → nth_child mem end dir index fuel ptr found
      ≡ some (get_elem? (children mem dir hs) (index - found))
unfolding nth_child children
nth_child_lem mem end dir index zero ptr hs found c h k = absurd (omega arith)
nth_child_lem mem end dir index (suc f) ptr found [] c h k = rw c refl
nth_child_lem mem end dir index (suc f) ptr found (p ∷ ps) (e, there, fits, c) h k =
    rw (there, fits, ← e)
      (nth_step (child_of dir (full_path mem ptr)) index found (children mem dir ps) _ _ k
        (nth_child_lem mem end dir index f (next_header mem ptr) found ps c (omega arith) k)
        (λ l.
          nth_child_lem mem end dir index f (next_header mem ptr) (found + 1) ps c (omega arith)
            (omega arith)))
