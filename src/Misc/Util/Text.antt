-- ===== src/Misc/Util/Text.antt =====
-- What a string is, and the searches of src/misc/util.c.
use frog_kernel.Base.{
  ℕ, zero, suc, ◌+◌, ◌-◌, ◌%◌, ◌<◌, ◌≤◌, ◌≡◌, ◌≢◌, refl, ◌∙◌, ◌⊎◌, false, Option, none, some, [],
  ◌∷◌, ◌==◌, if◌then◌else◌, length, get_or, arith, Bool-cases, inl, inr, min,
}
use frog_kernel.Misc.Util.{Text, strlen, strnlen, strchr_from, strchr, strrchr_from, strrchr}

-- The characters of a string are bytes other than NUL.
abbrev pub IsText : Text → Type 0
IsText [] = Unit
IsText (c ∷ s) = (c ≢ 0) × (c < 256) × IsText s

pub strlen-length : (s : Text) → IsText s → strlen s ≡ length s
unfolding strlen
strlen-length [] h = refl
strlen-length (c ∷ s) (ne, b, h) = ground (arith, strlen-length s h)

pub strnlen-length : (s : Text) (n : ℕ) → IsText s → strnlen s n ≡ min n (length s)
unfolding strnlen
strnlen-length s zero h = omega arith
strnlen-length [] (suc n) h = omega arith
strnlen-length (c ∷ s) (suc n) (ne, b, h) = ground (arith, strnlen-length s n h)

-- Behind its end a string reads as NUL.
get_or-cons :
    (c : ℕ) (s : Text) (j : ℕ) → get_or (c ∷ s) j 0 ≡ (if j == 0 then c else get_or s (j - 1) 0)
get_or-cons c s zero = refl
get_or-cons c s (suc j) = ground arith

-- The place of the first `ch` in `s`, counted from `i`; the NUL at the end counts as a character.
abbrev pub First : Text → (ch i : ℕ) → Option ℕ → Type 0
First s ch i none = (j : ℕ) → j ≤ length s → get_or s j 0 ≢ ch
First s ch i (some k) =
    (i ≤ k)
    × (k ≤ i + length s)
    × (get_or s (k - i) 0 ≡ ch)
    × ((j : ℕ) → j < k - i → get_or s j 0 ≢ ch)

First-cons :
    (c : ℕ) (s : Text) (ch i : ℕ) (o : Option ℕ)
    → c ≢ ch
    → First s ch (i + 1) o
    → First (c ∷ s) ch i o
First-cons c s ch i none ne f = λ j h. ground (arith, f (j - 1), get_or-cons c s j)
First-cons c s ch i (some k) ne (lo, hi, at, before) = (
  omega arith,
  omega arith,
  ground (arith, get_or-cons c s (k - i)),
  λ j h. ground (arith, before (j - 1), get_or-cons c s j),
)

strchr_from-First : (s : Text) (ch i : ℕ) → IsText s → First s ch i (strchr_from i s ch)
unfolding strchr_from
strchr_from-First [] ch i h = elim (Bool-cases (0 == ch)) [
  | inl e ↦
      rw (e, strchr_from) (omega arith, omega arith, ground arith, λ j h. absurd (omega arith))
  | inr e ↦ rw (e, strchr_from) (λ j h. ground arith)
]
strchr_from-First (c ∷ s) ch i (nz, b, h) = elim (Bool-cases (c == ch)) [
  | inl e ↦
      rw (e, strchr_from)
        (
          omega arith,
          omega arith,
          ground (arith, get_or-cons c s (i - i)),
          λ j h. absurd (omega arith),
        )
  | inr e ↦
      let z : (c == 0) ≡ false = ground arith in
      rw (e, z, strchr_from)
        (First-cons c s ch i (strchr_from (i + 1) s ch) (ground arith)
          (strchr_from-First s ch (i + 1) h))
]

-- On a string `strchr` returns the place of the first character that equals `(unsigned char)c`, and
-- NULL if there is none. NUL is found at the end of the string.
pub strchr_lem : (s : Text) (c : ℕ) → IsText s → First s (c % 256) 0 (strchr s c)
unfolding strchr
strchr_lem s c h = strchr_from-First s (c % 256) 0 h

-- The place of the last `ch`.
abbrev pub Last : Text → (ch i : ℕ) → (last : Option ℕ) → Option ℕ → Type 0
Last s ch i last o =
    ((o ≡ last) × ((j : ℕ) → j ≤ length s → get_or s j 0 ≢ ch))
    ⊎ ((k : ℕ) × (o ≡ some (i + k))
        × (k ≤ length s)
        × (get_or s k 0 ≡ ch)
        × ((j : ℕ) → k < j → j ≤ length s → get_or s j 0 ≢ ch))

strrchr_from-Last :
    (s : Text) (ch i : ℕ) (last : Option ℕ) → IsText s → Last s ch i last (strrchr_from i last s ch)
unfolding strrchr_from
strrchr_from-Last [] ch i last h = elim (Bool-cases (0 == ch)) [
  | inl e ↦
      rw (e, strrchr_from)
        (inr (0, ground arith, omega arith, ground arith, λ j h k. absurd (omega arith)))
  | inr e ↦ rw (e, strrchr_from) (inl (refl, λ j h. ground arith))
]
strrchr_from-Last (c ∷ s) ch i last (nz, b, h) =
    let z : (c == 0) ≡ false = ground arith in
    let last' = (if c == ch then some i else last) in
    rw (z, strrchr_from)
      (step (strrchr_from (i + 1) last' s ch) (strrchr_from-Last s ch (i + 1) last' h))
  where
    step :
        (o : Option ℕ)
        → Last s ch (i + 1) (if c == ch then some i else last) o
        → Last (c ∷ s) ch i last o
    step o (inl (e, none_after)) = elim (Bool-cases (c == ch)) [
      | inl here ↦ inr (
        0,
        e ∙ ground arith,
        omega arith,
        ground arith,
        λ j lo hi. ground (arith, none_after (j - 1), get_or-cons c s j),
      )
      | inr other ↦
          inl (e ∙ ground arith, λ j hi. ground (arith, none_after (j - 1), get_or-cons c s j))
    ]
    step o (inr (k, e, lo, at, after)) = inr (
      suc k,
      e ∙ ground arith,
      omega arith,
      at,
      λ j l hi. ground (arith, after (j - 1), get_or-cons c s j),
    )

-- On a string `strrchr` returns the place of the last character that equals `(unsigned char)c`, and
-- NULL if there is none.
pub strrchr_lem : (s : Text) (c : ℕ) → IsText s → Last s (c % 256) 0 none (strrchr s c)
unfolding strrchr
strrchr_lem s c h = strrchr_from-Last s (c % 256) 0 none h
