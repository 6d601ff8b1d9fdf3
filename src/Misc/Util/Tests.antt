-- ===== src/Misc/Util/Tests.antt =====
-- The library functions on small strings and numbers.
use frog_kernel.Base.{◌≡◌, ◌-◌, ◌^◌, refl, some, [], ◌∷◌, arith}
use frog_kernel.Misc.Util.{Text, strchr, strrchr, utoa, itoa, digits_loop, digit}
use frog_kernel.Misc.Util.Number.{Digits, utoa_lem}

abbrev tty : Text
tty = b'/' ∷ b'd' ∷ b'e' ∷ b'v' ∷ b'/' ∷ b't' ∷ b't' ∷ b'y' ∷ []

slashes : (strchr tty b'/' ≡ some 0) × (strrchr tty b'/' ≡ some 4) × (strchr tty 0 ≡ some 8)
unfolding strchr strrchr
slashes = (refl, refl, refl)

numbers :
    (utoa 0xc0de 16 ≡ some (b'c' ∷ b'0' ∷ b'd' ∷ b'e' ∷ []))
    × (itoa (2 ^ 32 - 42) 10 ≡ some (b'-' ∷ b'4' ∷ b'2' ∷ []))
unfolding utoa itoa digits_loop digit
numbers = (refl, refl)

utoa_lem_example : Digits 16 0xc0de 32 [] (utoa 0xc0de 16)
utoa_lem_example = utoa_lem 0xc0de 16 (omega arith) (omega arith) (omega arith)
