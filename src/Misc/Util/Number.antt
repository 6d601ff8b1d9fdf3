-- ===== src/Misc/Util/Number.antt =====
-- `utoa` and `itoa` of src/misc/util.c: the digits stand for the value.
use mathlib.Core.List.{append-nil, append_assoc}
use native.Mathlib.Nat.{pow-succ'}
use frog_kernel.Base.{
  ℕ, zero, suc, ◌+◌, ◌-◌, ◌*◌, ◌/◌, ◌%◌, ◌^◌, ◌<◌, ◌≤◌, ◌≡◌, ◌≢◌, refl, sym, ap, ◌∙◌, Bool, true,
  false, Option, some, [], ◌∷◌, ◌++◌, leb, ◌==◌, if◌then◌else◌, length, length-append, arith,
  Bool-cases, inl, inr,
}
use frog_kernel.Misc.Util.{Text, digit, digits_loop, put_sign, utoa, itoa}

-- What a digit and a text of digits stand for.
unfoldable pub digit_value : ℕ → ℕ
digit_value c = if leb b'a' c then c - b'a' + 10 else c - b'0'

unfoldable pub number : (base acc : ℕ) → Text → ℕ
number base acc [] = acc
number base acc (c ∷ s) = number base (acc * base + digit_value c) s

digit_value-digit : (d : ℕ) → d < 16 → digit_value (digit d) ≡ d
unfolding digit_value digit
digit_value-digit d h = ground arith

number-snoc :
    (base acc : ℕ) (s : Text) (c : ℕ)
    → number base acc (s ++ c ∷ []) ≡ number base acc s * base + digit_value c
unfolding number
number-snoc base acc [] c = refl
number-snoc base acc (d ∷ s) c = number-snoc base (acc * base + digit_value d) s c

div_half : (v b p : ℕ) → 2 ≤ b → v < 2 * p → v / b < p
div_half v b p h k = grind arith

div_mod : (v b : ℕ) → 2 ≤ b → v / b * b + v % b ≡ v
div_mod v b h = grind arith

-- What the digit loop adds in front of `tmp`: at most `n` digits, which stand for the value.
pub record Digits (base v n : ℕ) (tmp : Text) (o : Option Text) : Type 0 where
  pub digits : Text
  pub returned : o ≡ some (digits ++ tmp)
  pub value : number base 0 digits ≡ v
  pub short : length digits ≤ n

Digits-snoc :
    (base v n : ℕ) (tmp : Text) {o : Option Text}
    → 2 ≤ base
    → base ≤ 16
    → Digits base (v / base) n (digit (v % base) ∷ tmp) o
    → Digits base v (suc n) tmp o
unfolding number
Digits-snoc base v n tmp lo hi r =
    let d = digit (v % base) in
    let low : v % base < 16 = grind arith in
    record {
      digits = r.digits ++ d ∷ [];
      returned = r.returned ∙ ap some (sym (append_assoc r.digits (d ∷ []) tmp));
      value =
          number-snoc base 0 r.digits d
          ∙ rw (r.value, digit_value-digit (v % base) low) (div_mod v base lo);
      short = omega (arith, length-append {0} r.digits (d ∷ []), r.short);
    }

digits_loop-Digits :
    (n v base : ℕ) (tmp : Text)
    → 2 ≤ base
    → base ≤ 16
    → v < 2 ^ n
    → Digits base v n tmp (digits_loop (suc n) v base tmp)
unfolding digits_loop number
digits_loop-Digits zero v base tmp lo hi h =
    let e : (v == 0) ≡ true = ground arith in
    rw (e, digits_loop)
      (record { digits = []; returned = refl; value = ground arith; short = omega arith })
digits_loop-Digits (suc n) v base tmp lo hi h = elim (Bool-cases (v == 0)) [
  | inl e ↦
      rw (e, digits_loop)
        (record { digits = []; returned = refl; value = ground arith; short = omega arith })
  | inr e ↦
      rw (e, digits_loop)
        (Digits-snoc base v n tmp lo hi (
          digits_loop-Digits n (v / base) base (digit (v % base) ∷ tmp) lo hi
            (div_half v base (2 ^ n) lo (omega (arith, pow-succ' 2 n)))))
]

-- For a 32-bit value and a base from 2 to 16 `utoa` ends within its 33 rounds. The digits that it
-- writes stand for the value, and there are at most 32 of them, the size of `tmp`.
pub utoa_lem : (v base : ℕ) → v < 2 ^ 32 → 2 ≤ base → base ≤ 16 → Digits base v 32 [] (utoa v base)
unfolding utoa number digit_value
utoa_lem v base h lo hi = elim (Bool-cases (v == 0)) [
  | inl e ↦
      rw e
        (record { digits = b'0' ∷ []; returned = refl; value = ground arith; short = omega arith })
  | inr e ↦ rw e (digits_loop-Digits 32 v base [] lo hi h)
]

-- What a decimal text with an optional minus sign stands for: the magnitude and the sign.
abbrev pub Signed : (neg : Bool) → (magnitude : ℕ) → Option Text → Type 0
Signed neg m o =
    (ds : Text) × (o ≡ some (if neg then b'-' ∷ ds else ds))
    × (number 10 0 ds ≡ m)
    × (length ds ≤ 31)

itoa-Signed :
    (neg : Bool) (m : ℕ) {o : Option Text} → Digits 10 m 31 [] o → Signed neg m (put_sign neg o)
itoa-Signed true m d =
    (d.digits, ap (put_sign true) (d.returned ∙ ap some (append-nil d.digits)), d.value, d.short)
itoa-Signed false m d =
    (d.digits, ap (put_sign false) (d.returned ∙ ap some (append-nil d.digits)), d.value, d.short)

-- In base 10 `itoa` writes any 32-bit signed number but the least one as its magnitude, behind a
-- minus sign if it is negative, in at most 32 characters, the size of `tmp`.
pub itoa_lem :
    (v : ℕ)
    → v < 2 ^ 32
    → v ≢ 2 ^ 31
    → Signed (leb (2 ^ 31) v) (if leb (2 ^ 31) v then 2 ^ 32 - v else v) (itoa v 10)
unfolding itoa number digit_value
itoa_lem v h ne = elim (Bool-cases (v == 0)) [
  | inl e ↦
      let small : leb (2 ^ 31) v ≡ false = ground arith in
      rw (e, small) (b'0' ∷ [], refl, ground arith, omega arith)
  | inr e ↦ rw e (elim (Bool-cases (leb (2 ^ 31) v)) [
    | inl neg ↦
        let m : (2 ^ 32 - v) % 2 ^ 32 ≡ 2 ^ 32 - v = ground arith in
        let in_range : leb (2 ^ 31) (2 ^ 32 - v) ≡ false = ground arith in
        rw (neg, m, in_range)
          (itoa-Signed true (2 ^ 32 - v)
            (digits_loop-Digits 31 (2 ^ 32 - v) 10 [] (omega arith) (omega arith) (ground arith)))
    | inr nonneg ↦
        rw (nonneg, nonneg)
          (itoa-Signed false v
            (digits_loop-Digits 31 v 10 [] (omega arith) (omega arith) (ground arith)))
  ])
]

-- In a base other than 10 `itoa` writes nothing for a negative number.
pub itoa_negative : (v base : ℕ) → v < 2 ^ 32 → 2 ^ 31 ≤ v → base ≢ 10 → itoa v base ≡ some []
unfolding itoa digits_loop
itoa_negative v base h lo ne = ground arith

-- For the least number `itoa` writes a minus sign and no digit.
itoa_least : itoa (2 ^ 31) 10 ≡ some (b'-' ∷ [])
unfolding itoa digits_loop
itoa_least = refl
