-- ===== src/Misc/Printf/Bounded.antt =====
-- `vsnprintf` of src/misc/printf.c against the text that the format stands for.
use mathlib.Core.Path.{subst}
use frog_kernel.Base.{
  length-append, ℕ, zero, suc, ◌+◌, ◌-◌, ◌%◌, ◌^◌, ◌<◌, ◌≤◌, ◌≡◌, ◌⊎◌, inl, inr, refl, sym, ◌∙◌, ap,
  Bool, true, false, Bool-cases, Option-cases, Option, none, some, List, [], ◌∷◌, ◌++◌, ◌*◌, ltb,
  leb, ◌==◌, if◌then◌else◌, length, get_or, arith, min, ◌&&◌,
}
use frog_kernel.Base.Store.{Array, update}
use frog_kernel.Misc.Util.{Text}
use frog_kernel.Misc.Printf.{
  Arg, Out, put, put_text, parse_flags, parse_digits, star, starred, parse_number, parse_precision,
  parse, parse_conversion, with_rest, directive, format_loop, vsnprintf, Spec,
}

-- What a format and its arguments stand for: each character, and for each directive its text.
pub data Expands : Text → List Arg → Text → Type 0 where
  end : (args : List Arg) → Expands [] args []
  literal :
      (c : ℕ) (s : Text) (args : List Arg) (t : Text)
      → (c == b'%') ≡ false
      → Expands s args t
      → Expands (c ∷ s) args (c ∷ t)
  converted :
      (c : ℕ) (s s' : Text) (args args' : List Arg) (u t : Text)
      → (c == b'%') ≡ true
      → parse s args ≡ some (u, s', args')
      → Expands s' args' t
      → Expands (c ∷ s) args (u ++ t)

-- A directive takes characters of the format and gives none back.
Shorter : Text → Option (Option ℕ × Text × List Arg) → Type 0
Shorter s none = Unit
Shorter s (some (n, s', args)) = length s' ≤ length s

parse_flags_shorter : (s : Text) (l z : Bool) → length (parse_flags s l z).2 ≤ length s
unfolding parse_flags
parse_flags_shorter [] l z = omega arith
parse_flags_shorter (c ∷ s) l z = elim (Bool-cases (c == b'-')) [
  | inl minus ↦ rw (length, minus) (omega (arith, parse_flags_shorter s true z))
  | inr other ↦ elim (Bool-cases (c == b'0')) [
    | inl nought ↦ rw (length, other, nought) (omega (arith, parse_flags_shorter s l true))
    | inr rest ↦ rw (length, other, rest) (omega arith)
  ]
]

parse_digits_shorter : (s : Text) (acc : ℕ) → length (parse_digits s acc).1 ≤ length s
unfolding parse_digits
parse_digits_shorter [] acc = omega arith
parse_digits_shorter (c ∷ s) acc = elim (Bool-cases (leb b'0' c && leb c b'9')) [
  | inl digit ↦ rw (length, digit) (omega (arith, parse_digits_shorter s (acc * 10 + (c - b'0'))))
  | inr other ↦ rw (length, other) (omega arith)
]

starred-Shorter :
    (c : ℕ) (s : Text) (o : Option (Option ℕ × List Arg)) → Shorter (c ∷ s) (starred s o)
unfolding Shorter
starred-Shorter c s none = tt
starred-Shorter c s (some (n, args)) = omega arith

parse_number-Shorter : (s : Text) (args : List Arg) → Shorter s (parse_number s args)
unfolding parse_number Shorter
parse_number-Shorter [] args = omega arith
parse_number-Shorter (c ∷ s) args = elim (Bool-cases (c == b'*')) [
  | inl starry ↦ rw (parse_number, starry) (starred-Shorter c s (star args))
  | inr other ↦ rw (parse_number, other) (parse_digits_shorter (c ∷ s) 0)
]

parse_precision-Shorter : (s : Text) (args : List Arg) → Shorter s (parse_precision s args)
unfolding parse_precision Shorter
parse_precision-Shorter [] args = omega arith
parse_precision-Shorter (c ∷ s) args = elim (Bool-cases (c == b'.')) [
  | inl dot ↦ rw (parse_precision, dot) (weaker (parse_number s args) (parse_number-Shorter s args))
  | inr other ↦ rw (parse_precision, other) (omega arith)
]
  where
    weaker : (o : Option (Option ℕ × Text × List Arg)) → Shorter s o → Shorter (c ∷ s) o
    weaker none h = tt
    weaker (some (n, s', args')) h = omega arith

-- What the puts of a text leave: the buffer's part from `i` on, up to the last byte but one.
Put : (size : ℕ) → Out → Text → Out → Type 0
Put size o s o' =
    (o'.i ≡ min (o.i + length s) (size - 1))
    × ((j : ℕ)
        → o'.buf j ≡ (
            if leb o.i j && ltb j (min (o.i + length s) (size - 1))
            then get_or s (j - o.i) 0
            else o.buf j))

Put-cons :
    (size : ℕ) (o : Out) (c : ℕ) (s : Text) (o' : Out)
    → o.i < size - 1
    → Put size (record { buf = update o.buf o.i c; i = o.i + 1 }) s o'
    → Put size o (c ∷ s) o'
unfolding Put
Put-cons size o c s o' lt (e, at) = (omega (arith, e), λ j. at j ∙ pick j (Bool-cases (j == o.i)))
  where
    nought : (j : ℕ) → (j == o.i) ≡ true → j - o.i ≡ 0
    nought j h = ground (arith, h)

    later : (j : ℕ) → o.i < j → get_or (c ∷ s) (j - o.i) 0 ≡ get_or s (j - (o.i + 1)) 0
    later j h = ap (λ k. get_or (c ∷ s) k 0) (next j h)
      where
        next : (j : ℕ) → o.i < j → j - o.i ≡ suc (j - (o.i + 1))
        next j h = omega arith

    pick :
        (j : ℕ)
        → ((j == o.i) ≡ true) ⊎ ((j == o.i) ≡ false)
        → (if leb (o.i + 1) j && ltb j (min (o.i + 1 + length s) (size - 1))
            then get_or s (j - (o.i + 1)) 0
            else update o.buf o.i c j)
          ≡ (if leb o.i j && ltb j (min (o.i + suc (length s)) (size - 1))
              then get_or (c ∷ s) (j - o.i) 0
              else o.buf j)
    pick j (inl here) = ground (arith, here, lt, ap (λ k. get_or (c ∷ s) k 0) (nought j here))
    pick j (inr other) = ground (arith, other, lt, later j)

put_text_lem :
    (size : ℕ) (o : Out) (s : Text)
    → 1 ≤ size
    → size < 2 ^ 32
    → o.i ≤ size - 1
    → Put size o s (put_text size o s)
unfolding put_text put Put
put_text_lem size o [] h k le = (omega arith, λ j. ground (arith, le))
put_text_lem size o (c ∷ s) h k le = elim (Bool-cases (ltb o.i (size - 1))) [
  | inl room ↦
      rw (put_text, last, room)
        (Put-cons size o c s _ (ground (arith, room)) (
          put_text_lem size (record { buf = update o.buf o.i c; i = o.i + 1 }) s h k
            (ground (arith, room))))
  | inr full ↦
      rw (put_text, last, full)
        (put_none c (put_text size o s) (put_text_lem size o s h k le) (ground (arith, full)))
]
  where
    last : (size + 2 ^ 32 - 1) % 2 ^ 32 ≡ size - 1
    last = omega (arith, h, k)

    put_none : (c : ℕ) (o' : Out) → Put size o s o' → size - 1 ≤ o.i → Put size o (c ∷ s) o'
    put_none c o' (e, at) z = (omega (arith, e), λ j. at j ∙ ground (arith, le, z))

-- A directive takes at least its last character.
Parsed : Text → Option (Text × Text × List Arg) → Type 0
Parsed s none = Unit
Parsed s (some (u, s', args)) = length s' < length s

parse_conversion-Parsed :
    (p : Spec) (s s3 : Text) (args : List Arg)
    → length s3 ≤ length s
    → Parsed s (parse_conversion p s3 args)
unfolding parse_conversion Parsed
parse_conversion-Parsed p s [] args h = tt
parse_conversion-Parsed p s (c ∷ s4) args h = ended (directive p c args)
  where
    ended : (o : Option (Option Text × List Arg)) → Parsed s (with_rest s4 o)
    ended none = tt
    ended (some (none, args')) = tt
    ended (some (some t, args')) = omega arith

parse-Parsed : (s : Text) (args : List Arg) → Parsed s (parse s args)
unfolding Parsed Shorter parse
parse-Parsed s args = elim (Option-cases (parse_number (parse_flags s false false).2 args)) [
  | inl bad ↦ rw (parse, bad) tt
  | inr ((w, s2, args2), e) ↦ elim (Option-cases (parse_precision s2 args2)) [
    | inl bad ↦ rw (parse, e, bad) tt
    | inr ((n, s3, args3), e') ↦
        let h2 : length s2 ≤ length (parse_flags s false false).2 =
          subst (Shorter (parse_flags s false false).2) e
            (parse_number-Shorter (parse_flags s false false).2 args) in
        let h3 : length s3 ≤ length s2 = subst (Shorter s2) e' (parse_precision-Shorter s2 args2) in
        rw (parse, e, e')
          (parse_conversion-Parsed _ s s3 args3
            (omega (arith, parse_flags_shorter s false false, h2, h3)))
  ]
]

put_text-append :
    (size : ℕ) (o : Out) (s t : Text)
    → put_text size o (s ++ t) ≡ put_text size (put_text size o s) t
unfolding put_text
put_text-append size o [] t = refl
put_text-append size o (c ∷ s) t = put_text-append size (put size o c) s t

put_next :
    (size : ℕ) (o : Out) (c : ℕ)
    → 1 ≤ size
    → size < 2 ^ 32
    → o.i < size - 1
    → (put size o c).i ≡ o.i + 1
unfolding put
put_next size o c one k lt = ground (arith, one, k, lt)

format_loop_lem :
    (size fuel : ℕ) (fmt : Text) (args : List Arg) (t : Text) (o : Out)
    → Expands fmt args t
    → length fmt < fuel
    → 1 ≤ size
    → size < 2 ^ 32
    → o.i + length t < size
    → format_loop size fuel fmt args o ≡ some (put_text size o t)
unfolding format_loop put_text Parsed Put
format_loop_lem size zero fmt args t o x h one k fits = absurd (omega arith)
format_loop_lem size (suc f) _ args _ o (end _) h one k fits = refl
format_loop_lem size (suc f) _ args _ o (literal c s _ t plain x) h one k fits =
    rw (format_loop, plain, room)
      (format_loop_lem size f s args t (put size o c) x (omega arith) one k after)
  where
    room : ltb o.i ((size + 2 ^ 32 - 1) % 2 ^ 32) ≡ true
    room = ground (arith, one, k, fits)

    after : (put size o c).i + length t < size
    after = omega (arith, put_next size o c one k (omega (arith, fits)), fits)
format_loop_lem size (suc f) _ args _ o (converted c s s' _ args' u t percent p x) h one k fits =
    let taken : length s' < length s = subst (Parsed s) p (parse-Parsed s args) in
    rw (format_loop, percent, p)
      (format_loop_lem size f s' args' t (put_text size o u) x (omega arith) one k
          (after (put_text_lem size o u one k (omega (arith, fits, append))))
        ∙ ap some (sym (put_text-append size o u t)))
  where
    append : length (u ++ t) ≡ length u + length t
    append = length-append u t

    after : Put size o u (put_text size o u) → (put_text size o u).i + length t < size
    after (e, at) = omega (arith, e, fits, append)

-- In a full buffer a literal character is never left: no number of rounds is enough.
pub format_loop_full :
    (size fuel c : ℕ) (s : Text) (args : List Arg) (o : Out)
    → (c == b'%') ≡ false
    → 1 ≤ size
    → size < 2 ^ 32
    → size - 1 ≤ o.i
    → format_loop size fuel (c ∷ s) args o ≡ none
unfolding format_loop
format_loop_full size zero c s args o plain one k full = refl
format_loop_full size (suc f) c s args o plain one k full =
    rw (format_loop, plain, no_room) (format_loop_full size f c s args o plain one k full)
  where
    no_room : ltb o.i ((size + 2 ^ 32 - 1) % 2 ^ 32) ≡ false
    no_room = ground (arith, one, k, full)

pub vsnprintf_lem :
    (buf : Array ℕ) (size : ℕ) (fmt : Text) (args : List Arg) (t : Text)
    → Expands fmt args t
    → length t < size
    → size < 2 ^ 32
    → (buf' : Array ℕ) × (vsnprintf buf size fmt args ≡ some (length t, buf'))
      × ((j : ℕ) → j < length t → buf' j ≡ get_or t j 0)
      × (buf' (length t) ≡ 0)
      × ((j : ℕ) → length t < j → buf' j ≡ buf j)
unfolding vsnprintf Put
vsnprintf_lem buf size fmt args t x h k =
    let (e, at) = put_text_lem size start t (omega (arith, h)) k (omega arith) in
    let i : (put_text size start t).i ≡ length t = omega (arith, e, h) in
    (
      update (put_text size start t).buf (length t) 0,
      rw
          (
            vsnprintf,
            format_loop_lem size (suc (length fmt)) fmt args t start x (omega arith)
                (omega (arith, h)) k (omega (arith, h)),
            i,
          )
          refl,
      λ j l. ground (arith, at j, l, h),
      ground arith,
      λ j l. ground (arith, at j, l),
    )
  where
    start : Out
    start = record { buf = buf; i = 0 }
