-- ===== src/Misc/Printf.antt =====
-- Formatted output, `vsnprintf` of src/misc/printf.c. A format is a text without its NUL. An argument
-- of `%f` stands with what `ftoa` makes of it for each precision, since `ftoa` computes with doubles.
-- The 32 bytes of `tmp`, which a precision may exceed, are not bounded here.
pub mod Bounded
pub mod Console
mod Tests
use frog_kernel.Base.{
  ℕ, zero, suc, ◌+◌, ◌-◌, ◌*◌, ◌/◌, ◌%◌, ◌^◌, Bool, true, false, not, ◌&&◌, ◌||◌, Option, none,
  some, List, [], ◌∷◌, ◌++◌, ltb, leb, ◌==◌, if◌then◌else◌, length, replicate, take,
}
use frog_kernel.Base.Store.{Array, update}
use frog_kernel.Misc.Util.{Text, utoa}

-- What the caller passes: a word, a string or NULL, and a double.
pub data Arg : Type 0 where
  word : ℕ → Arg
  string : Option Text → Arg
  float : ((precision : ℕ) → Text) → Arg

-- The buffer and `i`.
pub record Out : Type 0 where
  pub buf : Array ℕ
  pub i : ℕ

-- `PUT`, with `size - 1` on size_t.
unfoldable pub put : (size : ℕ) → Out → (c : ℕ) → Out
put size o c =
    if ltb o.i ((size + 2 ^ 32 - 1) % 2 ^ 32)
    then record { buf = update o.buf o.i c; i = o.i + 1 }
    else o

unfoldable pub put_text : (size : ℕ) → Out → Text → Out
put_text size o [] = o
put_text size o (c ∷ s) = put_text size (put size o c) s

-- `left_align`, `zero_pad`, and what follows the flags.
unfoldable pub parse_flags : Text → (left zero : Bool) → Bool × Bool × Text
parse_flags [] l z = (l, z, [])
parse_flags (c ∷ s) l z = elim (c == b'-') [
  | true ↦ parse_flags s true z
  | false ↦ elim (c == b'0') [ true ↦ parse_flags s l true | false ↦ (l, z, c ∷ s) ]
]

unfoldable pub parse_digits : Text → (acc : ℕ) → ℕ × Text
parse_digits [] acc = (acc, [])
parse_digits (c ∷ s) acc = elim (leb b'0' c && leb c b'9') [
  | true ↦ parse_digits s (acc * 10 + (c - b'0'))
  | false ↦ (acc, c ∷ s)
]

-- An `int` argument for `*`: a negative width pads nothing, and a negative precision is none.
abbrev pub star : List Arg → Option (Option ℕ × List Arg)
star [] = none
star (word w ∷ as') = some ((if leb (2 ^ 31) w then none else some w), as')
star (string s ∷ as') = none
star (float f ∷ as') = none

abbrev pub at_least_zero : Option ℕ → ℕ
at_least_zero none = 0
at_least_zero (some n) = n

abbrev pub starred : Text → Option (Option ℕ × List Arg) → Option (Option ℕ × Text × List Arg)
starred s none = none
starred s (some (n, rest)) = some (n, s, rest)

unfoldable pub parse_number : Text → List Arg → Option (Option ℕ × Text × List Arg)
unfolding parse_digits
parse_number [] args = some (some 0, [], args)
parse_number (c ∷ s) args = elim (c == b'*') [
  | true ↦ starred s (star args)
  | false ↦ some (some (parse_digits (c ∷ s) 0).0, (parse_digits (c ∷ s) 0).1, args)
]

unfoldable pub parse_precision : Text → List Arg → Option (Option ℕ × Text × List Arg)
unfolding parse_number
parse_precision [] args = some (none, [], args)
parse_precision (c ∷ s) args = elim (c == b'.') [
  | true ↦ parse_number s args
  | false ↦ some (none, c ∷ s, args)
]

-- The flags, the width and the precision of a directive.
pub record Spec : Type 0 where
  pub left_align : Bool
  pub zero_pad : Bool
  pub width : ℕ
  pub precision : Option ℕ

-- `PAD_AND_PUT`
unfoldable pub padded : Spec → Text → Text
padded p s =
    let pad = p.width - length s in
    if p.left_align
    then s ++ replicate pad b' '
    else replicate pad (if p.zero_pad then b'0' else b' ') ++ s

-- Zeroes up to the precision.
abbrev pub with_precision : Option ℕ → Text → Text
with_precision none ds = ds
with_precision (some n) ds = replicate (n - length ds) b'0' ++ ds

abbrev pub null_text : Text
null_text = b'(' ∷ b'n' ∷ b'u' ∷ b'l' ∷ b'l' ∷ b')' ∷ []

abbrev pub or_null : Option Text → Text
or_null none = null_text
or_null (some s) = s

abbrev pub cut : Option ℕ → Text → Text
cut none s = s
cut (some n) s = take n s

-- A field of a number. `none`: `tmp`, an array of 32 characters with the NUL, has no room for the
-- digits that the precision asks for, and the code writes behind it.
abbrev pub field : Spec → (prefix : Text) → Option Text → Option Text
field p prefix none = none
field p prefix (some ds) =
    let tmp = prefix ++ with_precision p.precision ds in
    if leb 32 (length tmp) then none else some (padded p tmp)

unfoldable pub signed : Spec → (w : ℕ) → Option Text
unfolding padded
signed p w =
    if leb (2 ^ 31) w
    then field p (b'-' ∷ []) (utoa ((2 ^ 32 - w) % 2 ^ 32) 10)
    else field p [] (utoa w 10)

-- The conversions of a word.
unfoldable pub convert_word : Spec → (c w : ℕ) → Option Text
unfolding signed
convert_word p c w =
    if c == b'c'
    then some (padded p (w % 0x100 ∷ []))
    else if c == b'd'
    then signed p w
    else if c == b'u'
    then field p [] (utoa w 10)
    else if c == b'x'
    then field p [] (utoa w 16)
    else field (record p { precision = none }) (b'0' ∷ b'x' ∷ []) (utoa w 16)

abbrev pub takes_word : ℕ → Bool
takes_word c = c == b'c' || c == b'd' || c == b'u' || c == b'x' || c == b'p'

abbrev pub float_precision : Option ℕ → ℕ
float_precision none = 6
float_precision (some n) = n

-- The argument of a conversion that takes one, and what is put for it. `none`: there is no such
-- argument, or `tmp` has no room. A double's has 64 characters.
unfoldable pub convert : Spec → (c : ℕ) → List Arg → Option (Option Text × List Arg)
unfolding convert_word
convert p c [] = none
convert p c (word w ∷ rest) = if takes_word c then some (convert_word p c w, rest) else none
convert p c (string s ∷ rest) =
    if c == b's' then some (some (padded p (cut p.precision (or_null s))), rest) else none
convert p c (float f ∷ rest) =
    let tmp = f (float_precision p.precision) in
    let field = (if leb 64 (length tmp) then none else some (padded p tmp)) in
    if c == b'f' then some (field, rest) else none

-- What the directive with the character `c` puts, and the arguments behind it; another character
-- puts nothing.
unfoldable pub directive : Spec → (c : ℕ) → List Arg → Option (Option Text × List Arg)
unfolding convert
directive p c args =
    if takes_word c || c == b's' || c == b'f'
    then convert p c args
    else if c == b'%'
    then some (some (b'%' ∷ []), args)
    else some (some [], args)

abbrev pub with_rest :
    (rest : Text) → Option (Option Text × List Arg) → Option (Text × Text × List Arg)
with_rest s none = none
with_rest s (some (none, args)) = none
with_rest s (some (some t, args)) = some (t, s, args)

-- The end of a directive. Behind the end of the format the code would read on.
unfoldable pub parse_conversion : Spec → Text → List Arg → Option (Text × Text × List Arg)
parse_conversion p [] args = none
parse_conversion p (c ∷ s) args = with_rest s (directive p c args)

-- A directive behind its `%`: what it puts, and the format and the arguments behind it. `none`: an
-- argument is missing, or the format ends in the directive.
unfoldable pub parse : Text → List Arg → Option (Text × Text × List Arg)
parse s args =
    let (left, zeroes, s1) = parse_flags s false false in
    elim (parse_number s1 args) [
      | none ↦ none
      | some (width, s2, args2) ↦ elim (parse_precision s2 args2) [
        | none ↦ none
        | some (precision, s3, args3) ↦
            parse_conversion
              (record {
                left_align = left;
                zero_pad = zeroes && not left;
                width = at_least_zero width;
                precision = precision;
              })
              s3 args3
      ]
    ]

-- The loop, a round for each character or directive. `PUT(*fmt++)` moves on in the format only where
-- there is room: with a full buffer a literal character is met again and again. `none`: as for a directive, or the fuel is used
-- up.
unfoldable pub format_loop : (size fuel : ℕ) → Text → List Arg → Out → Option Out
format_loop size zero fmt args o = none
format_loop size (suc f) [] args o = some o
format_loop size (suc f) (c ∷ s) args o = elim (c == b'%') [
  | false ↦ elim (ltb o.i ((size + 2 ^ 32 - 1) % 2 ^ 32)) [
    | true ↦ format_loop size f s args (put size o c)
    | false ↦ format_loop size f (c ∷ s) args o
  ]
  | true ↦ elim (parse s args) [
    | none ↦ none
    | some (t, s', args') ↦ format_loop size f s' args' (put_text size o t)
  ]
]

-- `buf[i] = '\0'; return (int)i;`
abbrev pub terminated : Option Out → Option (ℕ × Array ℕ)
terminated none = none
terminated (some o) = some (o.i, update o.buf o.i 0)

-- A round for each character of the format, and one more, are enough.
unfoldable pub vsnprintf : Array ℕ → (size : ℕ) → (fmt : Text) → List Arg → Option (ℕ × Array ℕ)
unfolding format_loop
vsnprintf buf size fmt args =
    terminated (format_loop size (suc (length fmt)) fmt args (record { buf = buf; i = 0 }))
