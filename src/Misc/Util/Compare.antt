-- ===== src/Misc/Util/Compare.antt =====
-- `strcmp` and `strncmp` of src/misc/util.c decide equality.
use frog_kernel.Base.{
  ℕ, zero, suc, ◌≡◌, refl, ◌↔◌, not, ◌&&◌, [], ◌∷◌, ◌==◌, take, arith, Bool-cases, inl, inr,
}
use frog_kernel.Base.Int.{pos, sub_ℕ-zero}
use frog_kernel.Misc.Util.{Text, strcmp, strncmp_from, strncmp}
use frog_kernel.Misc.Util.Text.{IsText}

cons_eq : (c d : ℕ) (s t : Text) → c ≡ d → s ≡ t → ◌≡◌ {A = Text} (c ∷ s) (d ∷ t)
cons_eq c d s t p q = cc

cons_inj : (c d : ℕ) (s t : Text) → ◌≡◌ {A = Text} (c ∷ s) (d ∷ t) → (c ≡ d) × (s ≡ t)
cons_inj c d s t p = ground arith

-- `strcmp` returns 0 exactly on equal strings.
pub strcmp-zero_iff : (s t : Text) → IsText s → IsText t → (strcmp s t ≡ pos 0) ↔ (s ≡ t)
unfolding strcmp
strcmp-zero_iff [] [] h k = (λ e. refl, λ e. refl)
strcmp-zero_iff [] (d ∷ t) h (ne, b, k) = (λ e. absurd (ground arith), λ e. cc)
strcmp-zero_iff (c ∷ s) [] (ne, b, h) k = (λ e. absurd (ground arith), λ e. cc)
strcmp-zero_iff (c ∷ s) (d ∷ t) (ne, b, h) (ne', b', k) =
    elim (Bool-cases (not (c == 0) && c == d)) [
      | inl e ↦
          rw (e, strcmp)
            (
              λ z. cons_eq c d s t (ground arith) ((strcmp-zero_iff s t h k).0 z),
              λ q. (strcmp-zero_iff s t h k).1 (cons_inj c d s t q).1,
            )
      | inr e ↦
          rw (e, strcmp)
            (
              λ z. absurd (ground (arith, (sub_ℕ-zero c d).0)),
              λ q. absurd (ground (arith, cons_inj c d s t q)),
            )
    ]

strncmp_from-zero_iff :
    (s t : Text) (n : ℕ)
    → IsText s
    → IsText t
    → (strncmp_from s t n ≡ pos 0) ↔ (take (suc n) s ≡ take (suc n) t)
unfolding strncmp_from
strncmp_from-zero_iff [] [] zero h k = (λ e. refl, λ e. refl)
strncmp_from-zero_iff [] (d ∷ t) zero h (ne, b, k) = (λ e. absurd (ground arith), λ e. cc)
strncmp_from-zero_iff (c ∷ s) [] zero (ne, b, h) k = (λ e. absurd (ground arith), λ e. cc)
strncmp_from-zero_iff (c ∷ s) (d ∷ t) zero h k =
    (λ e. cons_eq c d [] [] ((sub_ℕ-zero c d).0 e) refl, λ e. ground (arith, cons_inj c d [] [] e))
strncmp_from-zero_iff [] [] (suc n) h k = (λ e. refl, λ e. refl)
strncmp_from-zero_iff [] (d ∷ t) (suc n) h (ne, b, k) = (λ e. absurd (ground arith), λ e. cc)
strncmp_from-zero_iff (c ∷ s) [] (suc n) (ne, b, h) k = (λ e. absurd (ground arith), λ e. cc)
strncmp_from-zero_iff (c ∷ s) (d ∷ t) (suc n) (ne, b, h) (ne', b', k) =
    elim (Bool-cases (not (c == 0) && c == d)) [
      | inl e ↦
          rw (e, strncmp_from)
            (
              λ z.
                  cons_eq c d (take (suc n) s) (take (suc n) t) (ground arith)
                    ((strncmp_from-zero_iff s t n h k).0 z),
              λ q.
                  (strncmp_from-zero_iff s t n h k).1
                    (cons_inj c d (take (suc n) s) (take (suc n) t) q).1,
            )
      | inr e ↦
          rw (e, strncmp_from)
            (
              λ z. absurd (ground (arith, (sub_ℕ-zero c d).0)),
              λ q. absurd (ground (arith, cons_inj c d (take (suc n) s) (take (suc n) t) q)),
            )
    ]

-- `strncmp` returns 0 exactly on strings with the same first `n` characters.
pub strncmp-zero_iff :
    (s t : Text) (n : ℕ) → IsText s → IsText t → (strncmp s t n ≡ pos 0) ↔ (take n s ≡ take n t)
unfolding strncmp
strncmp-zero_iff s t zero h k = (λ e. refl, λ e. refl)
strncmp-zero_iff s t (suc n) h k = strncmp_from-zero_iff s t n h k
