-- ===== src/Misc/Util.antt =====
-- Strings and numbers, src/misc/util.c. A string is the list of its characters, and the NUL that ends
-- it stands at the end of the list; a buffer is the memory from a pointer on. `ftoa` is left out:
-- it computes with floating point.
pub mod Text
pub mod Copy
pub mod Compare
pub mod Number
mod Tests
use frog_kernel.Base.{
  ℕ, zero, suc, ◌+◌, ◌-◌, ◌*◌, ◌/◌, ◌%◌, ◌^◌, Bool, true, false, ◌&&◌, ◌||◌, not, Option, none,
  some, List, [], ◌∷◌, ltb, leb, ◌==◌, if◌then◌else◌, get_or, length, take,
}
use frog_kernel.Base.Store.{Array, update}
use frog_kernel.Base.Int.{ℤ, pos, negsuc, sub_ℕ}

-- `KERNEL_VIRT_BASE`, where the half of the kernel begins.
abbrev pub kernel_virt_base : ℕ
kernel_virt_base = 0xc0000000

abbrev pub Text : Type 0
Text = List ℕ

-- `*s`
abbrev pub first : Text → ℕ
first [] = 0
first (c ∷ s) = c

unfoldable pub strlen : Text → ℕ
strlen [] = 0
strlen (c ∷ s) = if c == 0 then 0 else suc (strlen s)

unfoldable pub strnlen : Text → ℕ → ℕ
strnlen s zero = 0
strnlen [] (suc n) = 0
strnlen (c ∷ s) (suc n) = if c == 0 then 0 else suc (strnlen s n)

-- The copy writes from `p` on.
unfoldable pub strcpy_from : Array ℕ → ℕ → Text → Array ℕ
strcpy_from d p [] = update d p 0
strcpy_from d p (c ∷ s) = elim (c == 0) [
  | true ↦ update d p 0
  | false ↦ strcpy_from (update d p c) (p + 1) s
]

unfoldable pub strcpy : Array ℕ → Text → Array ℕ
unfolding strcpy_from
strcpy dst src = strcpy_from dst 0 src

-- The second loop of `strncpy`: `n` zeroes from `p` on.
unfoldable pub pad : Array ℕ → (p n : ℕ) → Array ℕ
pad d p zero = d
pad d p (suc n) = pad (update d p 0) (p + 1) n

unfoldable pub strncpy_from : Array ℕ → (p : ℕ) → Text → (n : ℕ) → Array ℕ
unfolding pad
strncpy_from d p s zero = d
strncpy_from d p [] (suc n) = pad d p (suc n)
strncpy_from d p (c ∷ s) (suc n) = elim (c == 0) [
  | true ↦ pad d p (suc n)
  | false ↦ strncpy_from (update d p c) (p + 1) s n
]

unfoldable pub strncpy : Array ℕ → Text → ℕ → Array ℕ
unfolding strncpy_from
strncpy dst src n = strncpy_from dst 0 src n

unfoldable pub strcmp : Text → Text → ℤ
strcmp [] t = sub_ℕ 0 (first t)
strcmp (c ∷ s) [] = sub_ℕ c 0
strcmp (c ∷ s) (d ∷ t) = elim (not (c == 0) && c == d) [ true ↦ strcmp s t | false ↦ sub_ℕ c d ]

-- The loop of `strncmp`, with `n` already counted down: `n` more steps may be taken.
unfoldable pub strncmp_from : Text → Text → ℕ → ℤ
strncmp_from s t zero = sub_ℕ (first s) (first t)
strncmp_from [] t (suc n) = sub_ℕ 0 (first t)
strncmp_from (c ∷ s) [] (suc n) = sub_ℕ c 0
strncmp_from (c ∷ s) (d ∷ t) (suc n) = elim (not (c == 0) && c == d) [
  | true ↦ strncmp_from s t n
  | false ↦ sub_ℕ c d
]

unfoldable pub strncmp : Text → Text → ℕ → ℤ
unfolding strncmp_from
strncmp s t zero = pos 0
strncmp s t (suc n) = strncmp_from s t n

-- The result is the index of the character that the pointer names.
unfoldable pub strchr_from : (i : ℕ) → Text → ℕ → Option ℕ
strchr_from i [] ch = if 0 == ch then some i else none
strchr_from i (c ∷ s) ch = elim (c == ch) [
  | true ↦ some i
  | false ↦ elim (c == 0) [ true ↦ none | false ↦ strchr_from (i + 1) s ch ]
]

unfoldable pub strchr : Text → ℕ → Option ℕ
unfolding strchr_from
strchr s c = strchr_from 0 s (c % 256)

unfoldable pub strrchr_from : (i : ℕ) → (last : Option ℕ) → Text → ℕ → Option ℕ
strrchr_from i last [] ch = if 0 == ch then some i else last
strrchr_from i last (c ∷ s) ch =
    let last' = (if c == ch then some i else last) in
    elim (c == 0) [ true ↦ last' | false ↦ strrchr_from (i + 1) last' s ch ]

unfoldable pub strrchr : Text → ℕ → Option ℕ
unfolding strrchr_from
strrchr s c = strrchr_from 0 none s (c % 256)

-- `digits[d]`: '0' to '9', then 'a' to 'f'.
unfoldable pub digit : ℕ → ℕ
digit d = if ltb d 10 then b'0' + d else b'a' + (d - 10)

-- The loop that fills `tmp`. `tmp` is kept with its last character in front, so it is read out in
-- the order in which the second loop copies it. `none`: the fuel is used up.
unfoldable pub digits_loop : (fuel value base : ℕ) → (tmp : Text) → Option Text
digits_loop zero value base tmp = none
digits_loop (suc f) value base tmp = elim (value == 0) [
  | true ↦ some tmp
  | false ↦ digits_loop f (value / base) base (digit (value % base) ∷ tmp)
]

-- 33 rounds are enough for 32 digits.
unfoldable pub utoa : (value base : ℕ) → Option Text
utoa value base = if value == 0 then some (b'0' ∷ []) else digits_loop 33 value base []

-- `if (neg) tmp[i++] = '-';`
abbrev pub put_sign : Bool → Option Text → Option Text
put_sign neg none = none
put_sign true (some ds) = some (b'-' ∷ ds)
put_sign false (some ds) = some ds

-- An `int` is its bit pattern; 32 rounds are enough for the 31 digits of a magnitude. A pattern with the sign bit is not `> 0`, so its loop makes no round;
-- `-value` wraps round.
unfoldable pub itoa : (value base : ℕ) → Option Text
itoa value base =
    if value == 0
    then some (b'0' ∷ [])
    else let neg = leb (2 ^ 31) value && base == 10 in
      let v = (if neg then (2 ^ 32 - value) % 2 ^ 32 else value) in
      put_sign neg (digits_loop 32 (if leb (2 ^ 31) v then 0 else v) base [])
