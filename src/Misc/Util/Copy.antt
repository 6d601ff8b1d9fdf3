-- ===== src/Misc/Util/Copy.antt =====
-- `strcpy` and `strncpy` of src/misc/util.c, byte by byte.
use frog_kernel.Base.{
  ℕ, zero, suc, ◌+◌, ◌-◌, ◌≡◌, refl, ◌&&◌, [], ◌∷◌, ◌==◌, ltb, leb, length, get_or, if◌then◌else◌,
  arith,
}
use frog_kernel.Base.Store.{Array, update}
use frog_kernel.Misc.Util.{Text, pad, strcpy_from, strcpy, strncpy_from, strncpy}
use frog_kernel.Misc.Util.Text.{IsText}

pad_lem : (d : Array ℕ) (p n i : ℕ) → pad d p n i ≡ (if leb p i && ltb i (p + n) then 0 else d i)
unfolding pad
pad_lem d p zero i = ground arith
pad_lem d p (suc n) i = ground (arith, pad_lem (update d p 0) (p + 1) n i)

get_or-nil : (i : ℕ) → get_or {A = ℕ} [] i 0 ≡ 0
get_or-nil i = refl

get_or-cons :
    (c : ℕ) (s : Text) (i : ℕ) → get_or (c ∷ s) i 0 ≡ (if i == 0 then c else get_or s (i - 1) 0)
get_or-cons c s zero = refl
get_or-cons c s (suc i) = ground arith

strcpy_from_lem :
    (d : Array ℕ) (p : ℕ) (s : Text) (i : ℕ)
    → IsText s
    → strcpy_from d p s i ≡ (if leb p i && leb i (p + length s) then get_or s (i - p) 0 else d i)
unfolding strcpy_from
strcpy_from_lem d p [] i h = ground (arith, get_or-nil (i - p))
strcpy_from_lem d p (c ∷ s) i (ne, b, h) =
    ground (arith, strcpy_from_lem (update d p c) (p + 1) s i h, get_or-cons c s (i - p))

-- `strcpy` writes the characters of the source and the NUL behind them, and nothing else.
pub strcpy_lem :
    (d : Array ℕ) (s : Text) (i : ℕ)
    → IsText s
    → strcpy d s i ≡ (if leb i (length s) then get_or s i 0 else d i)
unfolding strcpy
strcpy_lem d s i h = ground (arith, strcpy_from_lem d 0 s i h)

strncpy_from_lem :
    (d : Array ℕ) (p : ℕ) (s : Text) (n i : ℕ)
    → IsText s
    → strncpy_from d p s n i ≡ (if leb p i && ltb i (p + n) then get_or s (i - p) 0 else d i)
unfolding strncpy_from
strncpy_from_lem d p s zero i h = ground arith
strncpy_from_lem d p [] (suc n) i h = ground (arith, pad_lem d p (suc n) i, get_or-nil (i - p))
strncpy_from_lem d p (c ∷ s) (suc n) i (ne, b, h) =
    ground (arith, strncpy_from_lem (update d p c) (p + 1) s n i h, get_or-cons c s (i - p))

-- `strncpy` writes exactly `n` bytes: the characters of the source as far as they fit, then zeroes.
-- Where the source has `n` characters or more, no NUL is written.
pub strncpy_lem :
    (d : Array ℕ) (s : Text) (n i : ℕ)
    → IsText s
    → strncpy d s n i ≡ (if ltb i n then get_or s i 0 else d i)
unfolding strncpy
strncpy_lem d s n i h = ground (arith, strncpy_from_lem d 0 s n i h)
