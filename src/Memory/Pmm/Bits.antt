-- ===== src/Memory/Pmm/Bits.antt =====
-- The bitmap of pmm.h, bit by bit.
use frog_kernel.Base.{
  ℕ, zero, suc, ◌+◌, ◌-◌, ◌/◌, ◌%◌, ◌^◌, ◌<◌, ◌≡◌, refl, Bool, true, false, not, ◌&&◌, ◌||◌,
  bit_and, bit_or, ltb, leb, ◌==◌, arith, ltb→lt, Bool-cases, inl, inr,
}
use frog_kernel.Base.Store.{Array, rows_pass, row-rows_pass}
use frog_kernel.Memory.Pmm.{bit_set, bit_clear, bit_test, set_from, clear_from}

-- The memory holds bytes.
abbrev pub IsBytes : Array ℕ → Type 0
IsBytes m = (i : ℕ) → m i < 256

-- A page is used when its bit is set.
unfoldable pub used : Array ℕ → ℕ → Bool
used m q = not (bit_test m q == 0)

bit_of : ℕ → ℕ → Bool
bit_of b j = not (bit_and b (2 ^ j) == 0)

same : Bool → Bool → Bool
same true b = b
same false b = not b

same→eq : (a b : Bool) → same a b ≡ true → a ≡ b
unfolding same
same→eq a b h = ground arith

or_table :
    rows_pass 256 (λ b. rows_pass 8 (λ k. rows_pass 8 (λ j.
      same (bit_of (bit_or b (2 ^ k)) j) (j == k || bit_of b j) && ltb (bit_or b (2 ^ k)) 256)))
    ≡ true
unfolding rows_pass bit_of same
or_table = refl

and_table :
    rows_pass 256 (λ b. rows_pass 8 (λ k. rows_pass 8 (λ j.
      same (bit_of (bit_and b (255 - 2 ^ k)) j) (not (j == k) && bit_of b j)
      && ltb (bit_and b (255 - 2 ^ k)) 256)))
    ≡ true
unfolding rows_pass bit_of same
and_table = refl

and_parts : (a b : Bool) → (a && b) ≡ true → (a ≡ true) × (b ≡ true)
and_parts a b h = ground arith

or_at :
    (b k j : ℕ)
    → b < 256
    → k < 8
    → j < 8
    → (bit_of (bit_or b (2 ^ k)) j ≡ (j == k || bit_of b j)) × (bit_or b (2 ^ k) < 256)
or_at b k j hb hk hj =
    let row = row-rows_pass 256 _ b or_table hb in
    let cell = row-rows_pass 8 _ k row hk in
    let bit = row-rows_pass 8 _ j cell hj in
    let parts = and_parts _ _ bit in (same→eq _ _ parts.0, ltb→lt _ _ parts.1)

and_at :
    (b k j : ℕ)
    → b < 256
    → k < 8
    → j < 8
    → (bit_of (bit_and b (255 - 2 ^ k)) j ≡ (not (j == k) && bit_of b j))
      × (bit_and b (255 - 2 ^ k) < 256)
and_at b k j hb hk hj =
    let row = row-rows_pass 256 _ b and_table hb in
    let cell = row-rows_pass 8 _ k row hk in
    let bit = row-rows_pass 8 _ j cell hj in
    let parts = and_parts _ _ bit in (same→eq _ _ parts.0, ltb→lt _ _ parts.1)

pub bit_set-IsBytes : (m : Array ℕ) (p : ℕ) → IsBytes m → IsBytes (bit_set m p)
unfolding bit_set
bit_set-IsBytes m p h i =
    ground (arith, h i, or_at (m (p / 8)) (p % 8) 0 (h (p / 8)) (omega arith) (omega arith))

pub bit_clear-IsBytes : (m : Array ℕ) (p : ℕ) → IsBytes m → IsBytes (bit_clear m p)
unfolding bit_clear
bit_clear-IsBytes m p h i =
    ground (arith, h i, and_at (m (p / 8)) (p % 8) 0 (h (p / 8)) (omega arith) (omega arith))

-- BIT_SET sets its bit and no other.
pub used-bit_set : (m : Array ℕ) (p q : ℕ) → IsBytes m → used (bit_set m p) q ≡ (q == p || used m q)
unfolding bit_set bit_test used bit_of
used-bit_set m p q h = elim (Bool-cases (q / 8 == p / 8)) [
  | inl e ↦
      ground (arith, or_at (m (p / 8)) (p % 8) (q % 8) (h (p / 8)) (omega arith) (omega arith))
  | inr e ↦ ground arith
]

-- BIT_CLEAR clears its bit and no other.
pub used-bit_clear :
    (m : Array ℕ) (p q : ℕ) → IsBytes m → used (bit_clear m p) q ≡ (not (q == p) && used m q)
unfolding bit_clear bit_test used bit_of
used-bit_clear m p q h = elim (Bool-cases (q / 8 == p / 8)) [
  | inl e ↦
      ground (arith, and_at (m (p / 8)) (p % 8) (q % 8) (h (p / 8)) (omega arith) (omega arith))
  | inr e ↦ ground arith
]

-- Page `q` is one of the `n` pages from `p` on.
abbrev pub in_pages : (p n q : ℕ) → Bool
in_pages p n q = leb p q && ltb q (p + n)

pub set_from-IsBytes : (n : ℕ) (m : Array ℕ) (p : ℕ) → IsBytes m → IsBytes (set_from m p n)
unfolding set_from
set_from-IsBytes zero m p h = h
set_from-IsBytes (suc n) m p h = set_from-IsBytes n (bit_set m p) (p + 1) (bit_set-IsBytes m p h)

pub clear_from-IsBytes : (n : ℕ) (m : Array ℕ) (p : ℕ) → IsBytes m → IsBytes (clear_from m p n)
unfolding clear_from
clear_from-IsBytes zero m p h = h
clear_from-IsBytes (suc n) m p h =
    clear_from-IsBytes n (bit_clear m p) (p + 1) (bit_clear-IsBytes m p h)

pub used-set_from :
    (n : ℕ) (m : Array ℕ) (p q : ℕ)
    → IsBytes m
    → used (set_from m p n) q ≡ (in_pages p n q || used m q)
unfolding set_from
used-set_from zero m p q h = ground arith
used-set_from (suc n) m p q h =
    ground
      (arith, used-set_from n (bit_set m p) (p + 1) q (bit_set-IsBytes m p h), used-bit_set m p q h)

pub used-clear_from :
    (n : ℕ) (m : Array ℕ) (p q : ℕ)
    → IsBytes m
    → used (clear_from m p n) q ≡ (not (in_pages p n q) && used m q)
unfolding clear_from
used-clear_from zero m p q h = ground arith
used-clear_from (suc n) m p q h = ground (
  arith,
  used-clear_from n (bit_clear m p) (p + 1) q (bit_clear-IsBytes m p h),
  used-bit_clear m p q h,
)
