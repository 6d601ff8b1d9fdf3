-- ===== src/Idt/Gates.antt =====
-- The gates that `idt_init` of src/idt/idt.c leaves.
use frog_kernel.Base.{
  ℕ, ◌+◌, ◌*◌, ◌/◌, ◌%◌, ◌^◌, ◌<◌, ◌≡◌, ◌∙◌, inl, inr, Bool-cases, ap, refl, Bool, true, false,
  ◌||◌, ◌&&◌, ltb, leb, ◌==◌, if◌then◌else◌, List, [], ◌∷◌, arith,
}
use frog_kernel.Base.Store.{Array}
use frog_kernel.Idt.{Gate, idt_set_entry, no_gate, set_gates, exceptions, irqs, idt_init}

-- The address that a gate leads to.
unfoldable pub target : Gate → ℕ
target g = g.base_high * 0x10000 + g.base_low

abbrev gate : (base flags : ℕ) → Gate
gate base flags = record {
  base_low = base % 0x10000;
  selector = 0x08;
  reserved = 0;
  flags = flags;
  base_high = base / 0x10000 % 0x10000;
}

-- The processor is led to the routine that was set.
target-gate : (base flags : ℕ) → base < 2 ^ 32 → target (gate base flags) ≡ base
unfolding target
target-gate base flags h = omega (arith, h)

-- `n` is one of a run of interrupts.
abbrev among : (first : ℕ) → List ℕ → ℕ → Bool
among first [] n = false
among first (k ∷ ks) n = among first ks n || n == first + k

-- The interrupts that have a gate: 0 to 19, 32 to 47, and 0x80, which alone the user may raise.
unfoldable pub has_gate : ℕ → Bool
has_gate n = ltb n 20 || (leb 32 n && ltb n 48) || n == 0x80

set_gates_lem :
    (idt : Array Gate) (stub : ℕ → ℕ) (first : ℕ) (ns : List ℕ) (n : ℕ)
    → set_gates idt stub first ns n ≡ (if among first ns n then gate (stub n) 0x8e else idt n)
unfolding set_gates idt_set_entry
set_gates_lem idt stub first [] n = refl
set_gates_lem idt stub first (k ∷ ks) n =
    set_gates_lem (idt_set_entry idt (first + k) (stub (first + k)) 0x08 0x8e) stub first ks n
    ∙ ground arith

among_all : (n : ℕ) → (n == 0x80) ≡ false → (among 32 irqs n || among 0 exceptions n) ≡ has_gate n
unfolding has_gate
among_all n h = ground arith

idt_init-gate :
    (stub : ℕ → ℕ) (n : ℕ)
    → idt_init stub n ≡ (
        if n == 0x80
        then gate (stub 0x80) 0xee
        else if has_gate n
        then gate (stub n) 0x8e
        else no_gate)
unfolding idt_init
idt_init-gate stub n = elim (Bool-cases (n == 0x80)) [
  | inl user ↦ rw user refl
  | inr other ↦ rw other (
      set_gates_lem (set_gates (λ k. no_gate) stub 0 exceptions) stub 32 irqs n
      ∙ ground (arith, set_gates_lem (λ k. no_gate) stub 0 exceptions n, among_all n other))
]

idt_init_cases :
    (stub : ℕ → ℕ) (n : ℕ)
    → idt_init stub n
      ≡ (if has_gate n then gate (stub n) (if n == 0x80 then 0xee else 0x8e) else no_gate)
unfolding has_gate
idt_init_cases stub n = idt_init-gate stub n ∙ ground arith

-- After `idt_init`, the interrupts 0 to 19, 32 to 47 and 0x80 lead to their routines, if these lie
-- below 2^32, and only 0x80 may be raised by a program. No other interrupt has a gate.
pub idt_init_lem :
    (stub : ℕ → ℕ) (n : ℕ)
    → stub n < 2 ^ 32
    → (has_gate n ≡ true
        → (target (idt_init stub n) ≡ stub n)
          × ((idt_init stub n).flags ≡ (if n == 0x80 then 0xee else 0x8e)))
      × (has_gate n ≡ false → idt_init stub n ≡ no_gate)
idt_init_lem stub n h = (
  λ there. (
    ap target (made there) ∙ target-gate (stub n) (if n == 0x80 then 0xee else 0x8e) h,
    ap (λ g. g.flags) (made there),
  ),
  λ absent. idt_init_cases stub n ∙ rw absent refl,
)
  where
    made : has_gate n ≡ true → idt_init stub n ≡ gate (stub n) (if n == 0x80 then 0xee else 0x8e)
    made there = idt_init_cases stub n ∙ rw there refl
