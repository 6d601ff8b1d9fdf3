-- ===== src/Misc/Printf/Tests.antt =====
-- The format `%d!` with the number 5, into a buffer of three bytes.
use frog_kernel.Base.{ℕ, ◌≡◌, refl, some, List, [], ◌∷◌}
use frog_kernel.Base.Store.{Array}
use frog_kernel.Misc.Util.{Text, utoa, digits_loop, digit}
use frog_kernel.Misc.Printf.{
  Arg, word, parse, parse_flags, parse_digits, parse_number, parse_precision, parse_conversion,
  directive, convert, convert_word, signed, padded,
}

abbrev format : Text
format = b'%' ∷ b'd' ∷ b'!' ∷ []

abbrev five : List Arg
five = word 5 ∷ []

abbrev text : Text
text = b'5' ∷ b'!' ∷ []

abbrev buffer : Array ℕ
buffer j = 0xaa

number : parse (b'd' ∷ b'!' ∷ []) five ≡ some (b'5' ∷ [], b'!' ∷ [], [])
unfolding parse parse_flags parse_digits parse_number parse_precision parse_conversion directive
    convert convert_word signed padded utoa digits_loop digit
number = refl
