-- ===== src/Base/Store.antt =====
-- Arrays and memory as functions of the index, the outcome of code that may call `panic`, and the
-- loops that the components share.
use Prim.Native.Nat.{ℕ, zero, suc, ◌<◌}
use mathlib.Core.Path.{◌≡◌}
use mathlib.Core.Bool.{Bool, true, false}
use native.Mathlib.Omega.{arith}
use frog_kernel.Base.Tests.{if◌then◌else◌, ◌==◌}

-- A C array or a stretch of memory.
abbrev pub Array {ℓ} : Type ℓ → Type ℓ
Array A = ℕ → A

abbrev pub update {ℓ} : {A : Type ℓ} → Array A → ℕ → A → Array A
update m p v q = if q == p then v else m q

-- `panic` halts the machine: nothing runs after it, so no state comes with it.
pub data Outcome {ℓ} (A : Type ℓ) : Type ℓ where
  ok : A → Outcome A
  panic : Outcome A

infixl 5 ◌>>=◌
abbrev pub ◌>>=◌ {ℓ κ} : {A : Type ℓ} {B : Type κ} → Outcome A → (A → Outcome B) → Outcome B
ok a >>= f = f a
panic >>= f = panic

-- A finite table that is checked by evaluation: every row below `n` passes the test.
unfoldable pub rows_pass : (n : ℕ) → (row : ℕ → Bool) → Bool
rows_pass zero row = true
rows_pass (suc n) row = elim (row n) [ true ↦ rows_pass n row | false ↦ false ]

pub row-rows_pass : (n : ℕ) (row : ℕ → Bool) (i : ℕ) → rows_pass n row ≡ true → i < n → row i ≡ true
unfolding rows_pass
row-rows_pass zero row i passed below = absurd (omega arith)
row-rows_pass (suc n) row i passed below = ground (arith, row-rows_pass n row i)
