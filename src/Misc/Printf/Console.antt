-- ===== src/Misc/Printf/Console.antt =====
-- `console_printf` and `console_vprintf` of src/misc/printf.c: a text for the console.
use frog_kernel.Base.{
  ℕ, zero, suc, ◌+◌, ◌<◌, ◌≡◌, ◌∙◌, refl, ap, true, false, Option, none, some, [], ◌∷◌, length,
  get_or, ◌==◌, List, arith,
}
use frog_kernel.Base.Store.{Array}
use frog_kernel.Misc.Util.{Text}
use frog_kernel.Misc.Util.Text.{IsText}
use frog_kernel.Misc.Printf.{Arg, vsnprintf}
use frog_kernel.Misc.Printf.Bounded.{Expands, vsnprintf_lem}
use frog_kernel.Screen.{Console, console_putchar}

-- `sizeof(buf)`
abbrev pub buf_size : ℕ
buf_size = 1024

-- The loop over `buf`, which ends at the NUL that `vsnprintf` puts.
unfoldable pub put_chars : (buf : Array ℕ) → (rounds p : ℕ) → Console → Console
put_chars buf zero p c = c
put_chars buf (suc n) p c = elim (buf p == 0) [
  | true ↦ c
  | false ↦ put_chars buf n (p + 1) (console_putchar c (buf p))
]

abbrev pub put_result : Console → Option (ℕ × Array ℕ) → Option (ℕ × Console)
put_result c none = none
put_result c (some (n, buf)) = some (n, put_chars buf buf_size 0 c)

-- `buf` is what the stack holds before.
unfoldable pub console_printf :
    (buf : Array ℕ) → (fmt : Text) → List Arg → Console → Option (ℕ × Console)
unfolding put_chars
console_printf buf fmt args c = put_result c (vsnprintf buf buf_size fmt args)

-- The characters of a text, one after the other.
unfoldable pub type_all : Text → Console → Console
type_all [] c = c
type_all (x ∷ s) c = type_all s (console_putchar c x)

put_chars_lem :
    (buf : Array ℕ) (rounds p : ℕ) (s : Text) (c : Console)
    → IsText s
    → length s < rounds
    → ((j : ℕ) → j < length s → buf (p + j) ≡ get_or s j 0)
    → buf (p + length s) ≡ 0
    → put_chars buf rounds p c ≡ type_all s c
unfolding put_chars type_all
put_chars_lem buf zero p s c t h at end_ = absurd (omega arith)
put_chars_lem buf (suc n) p [] c t h at end_ = rw (put_chars, ends) refl
  where
    ends : (buf p == 0) ≡ true
    ends = ground (arith, end_)
put_chars_lem buf (suc n) p (x ∷ s) c (nz, lt, t) h at end_ =
    rw (put_chars, more, here)
      (put_chars_lem buf n (p + 1) s (console_putchar c x) t (omega arith)
        (λ j l. ap buf (omega arith) ∙ at (suc j) (omega arith)) (ap buf (omega arith) ∙ end_))
  where
    here : buf p ≡ x
    here = ap buf (omega arith) ∙ at 0 (omega arith)

    more : (buf p == 0) ≡ false
    more = ground (arith, here, nz)

-- A format that stands for a text of at most 1023 characters, none of them NUL, puts its characters
-- on the console one after the other, and returns how many there are.
pub console_printf_lem :
    (buf : Array ℕ) (fmt : Text) (args : List Arg) (t : Text) (c : Console)
    → Expands fmt args t
    → IsText t
    → length t < buf_size
    → console_printf buf fmt args c ≡ some (length t, type_all t c)
unfolding console_printf
console_printf_lem buf fmt args t c x it h =
    let (buf', e, at, nul, rest) = vsnprintf_lem buf buf_size fmt args t x h (omega arith) in
    rw (console_printf, e)
      (ap (λ d. some (length t, d))
        (put_chars_lem buf' buf_size 0 t c it h (λ j l. ap buf' (omega arith) ∙ at j l)
          (ap buf' (omega arith) ∙ nul)))
