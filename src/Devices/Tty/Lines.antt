-- ===== src/Devices/Tty/Lines.antt =====
-- The queue of characters that the terminal of src/devices/tty/tty.c stands for, as a list, and the
-- line that is still being typed, which is what comes behind the last newline.
use frog_kernel.Base.{
  ℕ, suc, ◌+◌, ◌≤◌, ◌≡◌, refl, ap, Bool, true, false, ◌||◌, List, [], ◌∷◌, ◌++◌, length, ◌==◌,
  arith, if◌then◌else◌, length-append,
}
use frog_kernel.Devices.Tty.{newline}

abbrev pub ends_line : List ℕ → Bool
ends_line [] = false
ends_line (c ∷ q) = c == newline || ends_line q

-- The number of characters behind the last newline.
unfoldable pub open_line : List ℕ → ℕ
open_line [] = 0
open_line (c ∷ q) =
    let rest = open_line q in
    if ends_line q then rest else if c == newline then length q else suc (length q)

unfoldable pub drop_last : List ℕ → List ℕ
drop_last [] = []
drop_last (c ∷ []) = []
drop_last (c ∷ d ∷ q) = c ∷ drop_last (d ∷ q)

pub open_line-none : (q : List ℕ) → ends_line q ≡ false → open_line q ≡ length q
unfolding open_line
open_line-none [] h = refl
open_line-none (c ∷ q) h = ground arith

ends_line-snoc : (q : List ℕ) (c : ℕ) → ends_line (q ++ c ∷ []) ≡ (ends_line q || c == newline)
ends_line-snoc [] c = ground arith
ends_line-snoc (d ∷ q) c = ground (arith, ends_line-snoc q c)

pub open_line-snoc :
    (q : List ℕ) (c : ℕ) → open_line (q ++ c ∷ []) ≡ (if c == newline then 0 else open_line q + 1)
unfolding open_line
open_line-snoc [] c = ground arith
open_line-snoc (d ∷ q) c =
    ground
      (arith, open_line-snoc q c, ends_line-snoc q c, length-append q (c ∷ []), open_line-none q)

pub drop_last-snoc : (q : List ℕ) (c : ℕ) → drop_last (q ++ c ∷ []) ≡ q
unfolding drop_last
drop_last-snoc [] c = refl
drop_last-snoc (d ∷ []) c = refl
drop_last-snoc (d ∷ e ∷ q) c = ap (λ r. d ∷ r) (drop_last-snoc (e ∷ q) c)

-- A character that is read in front of a line does not touch the line that is being typed.
pub open_line-read :
    (c : ℕ) (q : List ℕ) → ends_line (c ∷ q) ≡ true → open_line (c ∷ q) ≡ open_line q
unfolding open_line
open_line-read c q h = ground (arith, open_line-none q)

pub open_line-length : (q : List ℕ) → open_line q ≤ length q
unfolding open_line
open_line-length [] = omega arith
open_line-length (c ∷ q) = ground (arith, open_line-length q)
