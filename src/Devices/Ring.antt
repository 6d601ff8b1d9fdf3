-- ===== src/Devices/Ring.antt =====
-- What a ring buffer holds, shared by the terminal and the keyboard: the slots from a position on,
-- modulo the size.
use native.Mathlib.Nat.{mod-lt, mod-eq_of_lt, mod-eq-sub-mod, mod-add-mod, suc-mod}
use frog_kernel.Base.{
  ℕ, zero, suc, ◌+◌, ◌-◌, ◌%◌, ◌≤◌, ◌<◌, ◌≡◌, ◌≢◌, ◌∙◌, refl, sym, ap, true, false, List, [], ◌∷◌,
  ◌++◌, ltb, length, ◌==◌, arith, Bool-cases, inl, inr,
}
use frog_kernel.Base.Store.{Array, update}

abbrev pub window : Array ℕ → (size i n : ℕ) → List ℕ
window ring size i zero = []
window ring size i (suc n) = ring (i % size) ∷ window ring size (i + 1) n

pub length-window : (ring : Array ℕ) (size i n : ℕ) → length (window ring size i n) ≡ n
length-window ring size i zero = refl
length-window ring size i (suc n) = ap suc (length-window ring size (i + 1) n)

pub window-snoc :
    (ring : Array ℕ) (size i n : ℕ)
    → window ring size i (suc n) ≡ window ring size i n ++ ring ((i + n) % size) ∷ []
window-snoc ring size i zero = ap (λ k. ring (k % size) ∷ []) (omega arith)
window-snoc ring size i (suc n) =
    ap (λ xs. ring (i % size) ∷ xs)
      (window-snoc ring size (i + 1) n
        ∙ ap (λ k. window ring size (i + 1) n ++ ring (k % size) ∷ []) (omega arith))

-- Positions that are equal modulo the size see the same slots.
pub window-mod :
    (ring : Array ℕ) (size i j n : ℕ)
    → i % size ≡ j % size
    → window ring size i n ≡ window ring size j n
window-mod ring size i j zero e = refl
window-mod ring size i j (suc n) e = rw (
  e,
  window-mod ring size (i + 1) (j + 1) n (
      ap (λ k. k % size) (omega arith)
      ∙ suc-mod i size
      ∙ ap (λ k. suc k % size) e
      ∙ sym (suc-mod j size)
      ∙ ap (λ k. k % size) (omega arith)),
)

-- Positions less than the size apart are different slots.
far : (size a d : ℕ) → 0 < d → d < size → (a + d) % size ≢ a % size
far size a d h lt e = elim (Bool-cases (ltb (a % size + d) size)) [
  | inl small ↦ omega (arith, shift, mod-eq_of_lt (at small))
  | inr big ↦
      omega (arith, shift, mod-eq-sub-mod (past big), mod-eq_of_lt (back big), past big, inside)
]
  where
    inside : a % size < size
    inside = mod-lt a (omega arith)

    shift : (a % size + d) % size ≡ a % size
    shift = mod-add-mod a size d ∙ e

    at : ltb (a % size + d) size ≡ true → a % size + d < size
    at t = ground arith

    past : ltb (a % size + d) size ≡ false → size ≤ a % size + d
    past t = ground arith

    back : ltb (a % size + d) size ≡ false → a % size + d - size < size
    back t = omega (arith, past t, inside)

-- A write outside the window.
window-outside :
    (ring : Array ℕ) (size i n p c : ℕ)
    → ((j : ℕ) → j < n → (i + j) % size ≢ p)
    → window (update ring p c) size i n ≡ window ring size i n
window-outside ring size i zero p c h = refl
window-outside ring size i (suc n) p c h = rw (
  hit,
  window-outside ring size (i + 1) n p c
      (λ j lt e. h (suc j) (omega arith) (ap (λ k. k % size) (omega arith) ∙ e)),
)
  where
    miss : i % size ≢ p
    miss e = h 0 (omega arith) (ap (λ k. k % size) (omega arith) ∙ e)

    hit : (i % size == p) ≡ false
    hit = ground (arith, miss)

-- A write behind a window that leaves room appends.
pub window-push :
    (ring : Array ℕ) (size i n c : ℕ)
    → n < size
    → window (update ring ((i + n) % size) c) size i (suc n) ≡ window ring size i n ++ c ∷ []
window-push ring size i n c lt =
    window-snoc (update ring ((i + n) % size) c) size i n
    ∙ rw (
      window-outside ring size i n ((i + n) % size) c (λ j less e.
          far size (i + j) (n - j) (omega arith) (omega arith)
            (ap (λ k. k % size) (omega arith) ∙ sym e)),
      self,
    )
  where
    self : ((i + n) % size == (i + n) % size) ≡ true
    self = ground arith
