-- ===== src/Process/Load/Args/Texts.antt =====
-- The texts of the arguments on the first stack of a program, src/userspace/uprocess.c.
use frog_kernel.Base.{
  ℕ, ◌+◌, ◌-◌, ◌%◌, ◌^◌, ◌<◌, ◌≤◌, ◌≡◌, refl, ap, ◌∙◌, true, List, [], ◌∷◌, length, get_or, leb,
  ltb, ◌&&◌, arith,
}
use frog_kernel.Base.Store.{Array}
use frog_kernel.Memory.Pmm.{page_size}
use frog_kernel.Misc.Util.{Text}
use frog_kernel.Process.Load.{user_stack_top, word_at}
use frog_kernel.Process.Load.Page.{copy_bytes_lem}
use frog_kernel.Process.Load.Args.{stack_page, lower, put_text, push_texts}

-- The bytes that the arguments take, each with its NUL.
abbrev pub text_room : List Text → ℕ
text_room [] = 0
text_room (s ∷ ss) = text_room ss + (length s + 1)

-- A page agrees with another one from an offset on.
abbrev pub Above : (o : ℕ) → Array ℕ → Array ℕ → Type 0
Above o buf buf' = (i : ℕ) → o ≤ i → buf' i ≡ buf i

-- At each address lies the argument, with its NUL, in the part of the page from `lo` on.
abbrev pub Texts : (lo : ℕ) → Array ℕ → List Text → List ℕ → Type 0
Texts lo buf [] [] = Unit
Texts lo buf [] (a ∷ ptrs) = ⊥
Texts lo buf (s ∷ ss) [] = ⊥
Texts lo buf (s ∷ ss) (a ∷ ptrs) =
    (stack_page + lo ≤ a)
    × (a + length s < user_stack_top)
    × ((j : ℕ) → j ≤ length s → buf (a - stack_page + j) ≡ get_or s j 0)
    × Texts lo buf ss ptrs

abbrev pub Words : Array ℕ → (o : ℕ) → List ℕ → Type 0
Words buf o [] = Unit
Words buf o (v ∷ vs) = (word_at buf o ≡ v) × Words buf (o + 4) vs

pub Texts-Above :
    (lo lo' : ℕ) (buf buf' : Array ℕ) (argv : List Text) (ptrs : List ℕ)
    → lo' ≤ lo
    → Above lo buf buf'
    → Texts lo buf argv ptrs
    → Texts lo' buf' argv ptrs
Texts-Above lo lo' buf buf' [] [] h same t = tt
Texts-Above lo lo' buf buf' [] (a ∷ ptrs) h same t = t
Texts-Above lo lo' buf buf' (s ∷ ss) [] h same t = t
Texts-Above lo lo' buf buf' (s ∷ ss) (a ∷ ptrs) h same (low, high, text, t) = (
  omega arith,
  high,
  λ j k. same (a - stack_page + j) (omega arith) ∙ text j k,
  Texts-Above lo lo' buf buf' ss ptrs h same t,
)

put_text-Above :
    (buf : Array ℕ) (o : ℕ) (s : Text) → Above (o + (length s + 1)) buf (put_text buf o s)
put_text-Above buf o s i h =
    copy_bytes_lem buf o (λ j. get_or s j 0) 0 (length s + 1) i ∙ ground (arith, h)

put_text_holds :
    (buf : Array ℕ) (o : ℕ) (s : Text) (j : ℕ)
    → j ≤ length s
    → put_text buf o s (o + j) ≡ get_or s j 0
put_text_holds buf o s j h =
    copy_bytes_lem buf o (λ j. get_or s j 0) 0 (length s + 1) (o + j) ∙ rw (here, index) refl
  where
    here : (leb o (o + j) && ltb (o + j) (o + (length s + 1))) ≡ true
    here = ground (arith, h)

    index : 0 + (o + j - o) ≡ j
    index = omega arith

-- What the loop leaves, from the offset `o` down.
unfoldable pub Pushed : Array ℕ → (o : ℕ) → List Text → Array ℕ × ℕ × List ℕ → Type 0
Pushed buf o argv (buf', o', ptrs) =
    (o' + text_room argv ≡ o) × Texts o' buf' argv ptrs × Above o buf buf'

push_text_step :
    (buf : Array ℕ) (o : ℕ) (s : Text) (ss : List Text) (r : Array ℕ × ℕ × List ℕ)
    → text_room (s ∷ ss) ≤ o
    → o ≤ page_size
    → Pushed buf o ss r
    → (let at = lower r.1 (length s + 1) in
        Pushed buf o (s ∷ ss) (put_text r.0 at s, at, (stack_page + at) % 2 ^ 32 ∷ r.2))
unfolding Pushed
push_text_step buf o s ss (buf', o', ptrs) h k (e, t, same) = (
  omega arith,
  (
    omega arith,
    omega arith,
    λ j l.
        ap (put_text buf' (lower o' (length s + 1)) s) (omega arith)
        ∙ put_text_holds buf' (lower o' (length s + 1)) s j l,
    Texts-Above o' (lower o' (length s + 1)) buf' _ ss ptrs (omega arith)
        (λ i l. put_text-Above buf' (lower o' (length s + 1)) s i (omega arith)) t,
  ),
  λ i l. put_text-Above buf' (lower o' (length s + 1)) s i (omega arith) ∙ same i l,
)

pub push_texts_lem :
    (buf : Array ℕ) (o : ℕ) (argv : List Text)
    → text_room argv ≤ o
    → o ≤ page_size
    → Pushed buf o argv (push_texts buf o argv)
unfolding push_texts Pushed
push_texts_lem buf o [] h k = (omega arith, tt, λ i l. refl)
push_texts_lem buf o (s ∷ ss) h k =
    push_text_step buf o s ss (push_texts buf o ss) h k (push_texts_lem buf o ss (omega arith) k)
