-- ===== src/Initrd/Archive.antt =====
-- What a tar archive in memory holds, by the layout of its headers in src/initrd/initrd.h: the name of a
-- file, its size and where the next header lies.
use frog_kernel.Base.{
  ℕ, zero, suc, ◌+◌, ◌-◌, ◌*◌, ◌%◌, ◌^◌, ◌<◌, ◌≤◌, ◌≡◌, ◌≢◌, ◌⊎◌, inl, inr, refl, ap, true, false,
  not, Bool, ◌||◌, ltb, List, [], ◌∷◌, ◌++◌, length, ◌==◌, arith,
}
use frog_kernel.Base.Store.{Array}
use frog_kernel.Misc.Util.{Text}
use frog_kernel.Misc.Util.Text.{IsText}
use frog_kernel.Initrd.{oct2int_from, bytes_at, drop_slash, strip}

-- A field of `n` bytes holds a text, with a NUL behind it where there is room.
abbrev pub Field : Array ℕ → (a n : ℕ) → Text → Type 0
Field mem a n [] = (n ≡ 0) ⊎ (mem a ≡ 0)
Field mem a zero (c ∷ s) = ⊥
Field mem a (suc n) (c ∷ s) = (mem a ≡ c) × (c ≢ 0) × Field mem (a + 1) n s

-- A field of `n` bytes holds octal digits, up to a character that is none.
abbrev pub Digits : Array ℕ → (a n : ℕ) → List ℕ → Type 0
Digits mem a n [] = (n ≡ 0) ⊎ ((mem a < 48) ⊎ (55 < mem a))
Digits mem a zero (d ∷ ds) = ⊥
Digits mem a (suc n) (d ∷ ds) = (mem a ≡ 48 + d) × (d < 8) × Digits mem (a + 1) n ds

-- The number that digits stand for, behind the number `v`.
unfoldable pub octal : (v : ℕ) → List ℕ → ℕ
octal v [] = v
octal v (d ∷ ds) = octal (v * 8 + d) ds

-- The prefix and the name as one path.
abbrev pub joined : (prefix name : Text) → Text
joined [] name = name
joined (c ∷ p) name = (c ∷ p) ++ b'/' ∷ name

-- A text has no slash at its end.
unfoldable pub ends_plain : Text → Bool
ends_plain [] = true
ends_plain (c ∷ []) = not (c == b'/')
ends_plain (c ∷ d ∷ s) = ends_plain (d ∷ s)

-- A member of an archive: where its header lies, and what it says. Its contents take whole blocks.
pub record Member : Type 0 where
  pub at : ℕ
  pub prefix : Text
  pub name : Text
  pub path : Text
  pub digits : List ℕ
  pub size : ℕ
  pub blocks : ℕ

-- The header lies below `end`, and says so. The path is the joined one, but for a slash at its end.
pub record IsMember (mem : Array ℕ) (end : ℕ) (m : Member) : Type 0 where
  pub place : 1 ≤ m.at
  pub fits : m.at + 512 ≤ end
  pub magic_u : mem (m.at + 257) ≡ b'u'
  pub magic_s : mem (m.at + 258) ≡ b's'
  pub magic_t : mem (m.at + 259) ≡ b't'
  pub magic_a : mem (m.at + 260) ≡ b'a'
  pub magic_r : mem (m.at + 261) ≡ b'r'
  pub name : Field mem m.at 100 m.name
  pub named : 1 ≤ length m.name
  pub short_name : (length m.prefix ≡ 0) → length m.name < 100
  pub prefix : Field mem (m.at + 345) 155 m.prefix
  pub short : length (joined m.prefix m.name) < 256
  pub path :
      ((joined m.prefix m.name ≡ m.path) × ((ends_plain m.path ≡ true) ⊎ (length m.path ≡ 1)))
      ⊎ ((joined m.prefix m.name ≡ m.path ++ b'/' ∷ []) × (1 ≤ length m.path))
  pub text : IsText m.path
  pub digits : Digits mem (m.at + 124) 12 m.digits
  pub size : octal 0 m.digits ≡ m.size
  pub blocks : (m.size ≤ m.blocks * 512) × (m.blocks * 512 < m.size + 512)
  pub next : m.at + 512 + m.size + 512 < 2 ^ 32

-- The members from an address on; behind the last there is no room for a header, or a zero.
abbrev pub Archive : Array ℕ → (end ptr : ℕ) → List Member → Type 0
Archive mem end ptr [] = (end < ptr + 512) ⊎ (mem ptr ≡ 0)
Archive mem end ptr (m ∷ ms) =
    (ptr ≡ m.at) × IsMember mem end m × Archive mem end (m.at + 512 + m.blocks * 512) ms

pub bytes_at_lem : (mem : Array ℕ) (a n : ℕ) (s : Text) → Field mem a n s → bytes_at mem a n ≡ s
unfolding bytes_at
bytes_at_lem mem a zero [] f = refl
bytes_at_lem mem a (suc n) [] (inl e) = absurd (omega arith)
bytes_at_lem mem a (suc n) [] (inr e) = ground (arith, e)
bytes_at_lem mem a zero (c ∷ s) f = absurd f
bytes_at_lem mem a (suc n) (c ∷ s) (e, nz, f) =
    ground (arith, e, nz, bytes_at_lem mem (a + 1) n s f)

-- A text that is shorter than its field is read in a longer one as well.
pub Field-longer :
    (mem : Array ℕ) (a n m : ℕ) (s : Text)
    → Field mem a n s
    → length s < n
    → n ≤ m
    → Field mem a m s
Field-longer mem a n m [] (inl e) lt le = absurd (omega arith)
Field-longer mem a n m [] (inr e) lt le = inr e
Field-longer mem a zero m (c ∷ s) f lt le = absurd f
Field-longer mem a (suc n) zero (c ∷ s) f lt le = absurd (omega arith)
Field-longer mem a (suc n) (suc m) (c ∷ s) (e, nz, f) lt le =
    (e, nz, Field-longer mem (a + 1) n m s f (omega arith) (omega arith))

octal_grows : (v : ℕ) (ds : List ℕ) → v ≤ octal v ds
unfolding octal
octal_grows v [] = omega arith
octal_grows v (d ∷ ds) = omega (arith, octal_grows (v * 8 + d) ds)

pub oct2int_from_lem :
    (mem : Array ℕ) (a n v : ℕ) (ds : List ℕ)
    → Digits mem a n ds
    → octal v ds < 2 ^ 32
    → oct2int_from mem a n v ≡ octal v ds
unfolding oct2int_from octal
oct2int_from_lem mem a zero v [] f h = refl
oct2int_from_lem mem a (suc n) v [] f h = ground (arith, f)
oct2int_from_lem mem a zero v (d ∷ ds) f h = absurd f
oct2int_from_lem mem a (suc n) v (d ∷ ds) (e, lt, f) h =
    rw (digit, next) (oct2int_from_lem mem (a + 1) n (v * 8 + d) ds f h)
  where
    digit : (ltb (mem a) b'0' || ltb b'7' (mem a)) ≡ false
    digit = ground (arith, e, lt)

    next : (v * 8 + (mem a - b'0')) % 2 ^ 32 ≡ v * 8 + d
    next = omega (arith, e, lt, h, octal_grows (v * 8 + d) ds)

drop_slash-plain : (s : Text) → ends_plain s ≡ true → drop_slash s ≡ s
unfolding drop_slash ends_plain
drop_slash-plain [] h = refl
drop_slash-plain (c ∷ []) h = ground (arith, h)
drop_slash-plain (c ∷ d ∷ s) h = ap (λ t. c ∷ t) (drop_slash-plain (d ∷ s) h)

drop_slash-slash : (s : Text) → drop_slash (s ++ b'/' ∷ []) ≡ s
unfolding drop_slash
drop_slash-slash [] = refl
drop_slash-slash (c ∷ []) = refl
drop_slash-slash (c ∷ d ∷ s) = ap (λ t. c ∷ t) (drop_slash-slash (d ∷ s))

pub strip-plain : (s : Text) → (ends_plain s ≡ true) ⊎ (length s ≡ 1) → strip s ≡ s
unfolding ends_plain
strip-plain [] h = refl
strip-plain (c ∷ []) h = refl
strip-plain (c ∷ d ∷ s) (inl h) = ap (λ t. c ∷ t) (drop_slash-plain (d ∷ s) h)
strip-plain (c ∷ d ∷ s) (inr h) = absurd (omega arith)

pub strip-slash : (s : Text) → 1 ≤ length s → strip (s ++ b'/' ∷ []) ≡ s
strip-slash [] h = absurd (omega arith)
strip-slash (c ∷ []) h = ap (λ t. c ∷ t) (drop_slash-slash [])
strip-slash (c ∷ d ∷ s) h = ap (λ t. c ∷ t) (drop_slash-slash (d ∷ s))
