-- ===== src/Process/Load/Args/Layout.antt =====
-- What `main` of a program finds on its first stack, which `uprocess_load` of
-- src/userspace/uprocess.c builds.
use frog_kernel.Base.{
  ℕ, suc, ◌+◌, ◌*◌, ◌/◌, ◌%◌, ◌^◌, ◌<◌, ◌≤◌, ◌≡◌, refl, ap, ◌∙◌, List, [], ◌∷◌, length, arith,
}
use frog_kernel.Base.Store.{Array}
use frog_kernel.Memory.Pmm.{page_size}
use frog_kernel.Misc.Util.{Text}
use frog_kernel.Process.Load.{word_at}
use frog_kernel.Process.Load.Args.{
  stack_page, lower, push_texts, put_word, push_words, push_argv, build_stack,
}
use frog_kernel.Process.Load.Args.Texts.{
  text_room, Above, Texts, Words, Texts-Above, Pushed, push_texts_lem,
}

put_word-Above : (buf : Array ℕ) (o v : ℕ) → Above (o + 4) buf (put_word buf o v)
unfolding put_word
put_word-Above buf o v i h = ground (arith, h)

put_word_bytes :
    (buf : Array ℕ) (o v : ℕ)
    → (put_word buf o v o ≡ v % 0x100)
      × (put_word buf o v (o + 1) ≡ v / 0x100 % 0x100)
      × (put_word buf o v (o + 2) ≡ v / 0x10000 % 0x100)
      × (put_word buf o v (o + 3) ≡ v / 0x1000000 % 0x100)
unfolding put_word
put_word_bytes buf o v = (ground arith, ground arith, ground arith, ground arith)

word_at-put_word : (buf : Array ℕ) (o v : ℕ) → v < 2 ^ 32 → word_at (put_word buf o v) o ≡ v
unfolding word_at
word_at-put_word buf o v h =
    let (b0, b1, b2, b3) = put_word_bytes buf o v in rw (b0, b1, b2, b3) (omega (arith, h))

Words-Above :
    (buf buf' : Array ℕ) (o : ℕ) (vs : List ℕ) → Above o buf buf' → Words buf o vs → Words buf' o vs
unfolding word_at
Words-Above buf buf' o [] same w = tt
Words-Above buf buf' o (v ∷ vs) same (e, w) = (
  rw
      (
        same o (omega arith),
        same (o + 1) (omega arith),
        same (o + 2) (omega arith),
        same (o + 3) (omega arith),
      )
      e,
  Words-Above buf buf' (o + 4) vs (λ i h. same i (omega arith)) w,
)

abbrev pub Small : List ℕ → Type 0
Small [] = Unit
Small (v ∷ vs) = (v < 2 ^ 32) × Small vs

-- What the pushes of some words leave, from the offset `o` down.
Placed : Array ℕ → (o : ℕ) → List ℕ → Array ℕ × ℕ → Type 0
Placed buf o vs (buf', o') = (o' + 4 * length vs ≡ o) × Words buf' o' vs × Above o buf buf'

push_word_step :
    (buf : Array ℕ) (o v : ℕ) (vs : List ℕ) (r : Array ℕ × ℕ)
    → 4 * length (v ∷ vs) ≤ o
    → o ≤ page_size
    → v < 2 ^ 32
    → Placed buf o vs r
    → Placed buf o (v ∷ vs) (put_word r.0 (lower r.1 4) v, lower r.1 4)
unfolding Placed
push_word_step buf o v vs (buf', o') h k lt (e, w, same) = (
  omega arith,
  (
    word_at-put_word buf' (lower o' 4) v lt,
    rw next (
        Words-Above buf' (put_word buf' (lower o' 4) v) o' vs
          (λ i l. put_word-Above buf' (lower o' 4) v i (omega arith)) w),
  ),
  λ i l. put_word-Above buf' (lower o' 4) v i (omega arith) ∙ same i l,
)
  where
    next : lower o' 4 + 4 ≡ o'
    next = omega arith

push_words_lem :
    (buf : Array ℕ) (o : ℕ) (vs : List ℕ)
    → 4 * length vs ≤ o
    → o ≤ page_size
    → Small vs
    → Placed buf o vs (push_words buf o vs)
unfolding push_words Placed
push_words_lem buf o [] h k sm = (omega arith, tt, λ i l. refl)
push_words_lem buf o (v ∷ vs) h k (lt, sm) =
    push_word_step buf o v vs (push_words buf o vs) h k lt
      (push_words_lem buf o vs (omega arith) k sm)

-- What `main` finds: `argc` at the stack pointer, then a pointer to the array behind it, which holds
-- the addresses of the arguments and ends in NULL. At each address lies the argument with its NUL.
pub record Stacked (argv : List Text) (page : Array ℕ) (esp : ℕ) : Type 0 where
  pub at : ℕ
  pub here : (esp ≡ stack_page + at) × (at < page_size)
  pub argc : word_at page at ≡ length argv
  pub vector : word_at page (at + 4) ≡ esp + 8
  pub ptrs : List ℕ
  pub pointers : Words page (at + 8) ptrs
  pub last : word_at page (at + 8 + 4 * length argv) ≡ 0
  pub texts : Texts at page argv ptrs

Texts-length :
    (lo : ℕ) (buf : Array ℕ) (argv : List Text) (ptrs : List ℕ)
    → Texts lo buf argv ptrs
    → (length ptrs ≡ length argv) × Small ptrs
Texts-length lo buf [] [] t = (refl, tt)
Texts-length lo buf [] (a ∷ ptrs) t = absurd t
Texts-length lo buf (s ∷ ss) [] t = absurd t
Texts-length lo buf (s ∷ ss) (a ∷ ptrs) (low, high, text, t) =
    let (e, sm) = Texts-length lo buf ss ptrs t in (ap suc e, (omega arith, sm))

-- The room that the page needs: the arguments, up to three bytes to align, and a word for each
-- pointer, NULL, `argv` and `argc`.
abbrev pub room : List Text → ℕ
room argv = text_room argv + 3 + 4 * length argv + 12

-- The three pushes behind the arguments.
assemble :
    (argv : List Text) (buf : Array ℕ) (o : ℕ) (ptrs : List ℕ) (r1 r2 r3 : Array ℕ × ℕ)
    → length ptrs ≡ length argv
    → room argv ≤ page_size
    → o + text_room argv ≡ page_size
    → Texts o buf argv ptrs
    → Placed buf (o / 4 * 4) (0 ∷ []) r1
    → Placed r1.0 r1.1 ptrs r2
    → Placed r2.0 r2.1 (length argv ∷ (stack_page + r2.1) % 2 ^ 32 ∷ []) r3
    → Stacked argv r3.0 ((stack_page + r3.1) % 2 ^ 32)
unfolding Placed
assemble argv buf o ptrs (buf1, o1) (buf2, o2) (buf3, o3) len h e t (e1, w1, same1) (e2, w2, same2)
      (e3, (argc, (vector, w3)), same3) =
    record {
      at = o3;
      here = (omega arith, omega arith);
      argc = argc;
      vector = vector ∙ omega arith;
      ptrs = ptrs;
      pointers = rw pointers_at (Words-Above buf2 buf3 o2 ptrs same3 w2);
      last =
          ap (word_at buf3) last_at
          ∙ (Words-Above buf1 buf3 o1 (0 ∷ [])
              (λ i l. same3 i (omega arith) ∙ same2 i (omega arith)) w1).0;
      texts =
          Texts-Above o o3 buf buf3 argv ptrs (omega arith)
            (λ i l. same3 i (omega arith) ∙ same2 i (omega arith) ∙ same1 i (omega arith)) t;
    }
  where
    pointers_at : o3 + 8 ≡ o2
    pointers_at = omega arith

    last_at : o3 + 8 + 4 * length argv ≡ o1
    last_at = omega (arith, len)

push_argv-Stacked :
    (argv : List Text) (r : Array ℕ × ℕ × List ℕ)
    → room argv ≤ page_size
    → Pushed (λ i. 0) page_size argv r
    → (let q = push_argv (length argv) r in Stacked argv q.0 ((stack_page + q.1) % 2 ^ 32))
unfolding push_argv Pushed Placed
push_argv-Stacked argv (buf, o, ptrs) h (e, t, same) =
    let (len, sm) = Texts-length o buf argv ptrs t in
    let r1 : Array ℕ × ℕ = push_words buf (o / 4 * 4) (0 ∷ []) in
    let p1 : Placed buf (o / 4 * 4) (0 ∷ []) r1 =
      push_words_lem buf (o / 4 * 4) (0 ∷ []) (omega arith) (omega arith) (omega arith, tt) in
    let r2 : Array ℕ × ℕ = push_words r1.0 r1.1 ptrs in
    let p2 : Placed r1.0 r1.1 ptrs r2 =
      push_words_lem r1.0 r1.1 ptrs (omega (arith, p1.0, len)) (omega (arith, p1.0)) sm in
    assemble argv buf o ptrs r1 r2 _ len h e t p1 p2 (
      push_words_lem r2.0 r2.1 (length argv ∷ (stack_page + r2.1) % 2 ^ 32 ∷ [])
        (omega (arith, p1.0, p2.0, len)) (omega (arith, p1.0, p2.0, len))
        (omega arith, (omega arith, tt)))

-- If the arguments, with a NUL for each, up to three bytes to align, and a word for each of them and
-- three more fit into a page, then the stack page of a new program is laid out for `main`: the stack
-- pointer is in the page and names `argc`, then `argv`, which points to the addresses of the
-- arguments and a NULL behind them, and at each address lies the argument with its NUL.
pub build_stack_lem :
    (argv : List Text)
    → room argv ≤ page_size
    → Stacked argv (build_stack argv).0 (build_stack argv).1
unfolding build_stack
build_stack_lem argv h =
    push_argv-Stacked argv (push_texts (λ i. 0) page_size argv) h
      (push_texts_lem (λ i. 0) page_size argv (omega arith) (omega arith))
