-- ===== src/Syscall/Life/Steps/Dead.antt =====
-- Invariants of processes that exit and wait, src/userspace/usyscall.c.

use mathlib.Core.Path.{subst}
use frog_kernel.Base.{
  ℕ, ◌≡◌, ◌≢◌, ◌==◌, inl, inr, refl, sym, ◌∙◌, ap, Bool, true, false, not, ◌&&◌, Option, none, some,
  Bool-cases, Option-cases, if◌then◌else◌, arith,
}
use frog_kernel.Vfs.{Drivers}
use frog_kernel.Process.{State, running, dead, waiting, set_next, uprocess_find, uprocess_remove}
use frog_kernel.Process.Removed.{uprocess_remove-same}
use frog_kernel.Syscall.{Regs, Memory, Kernel, val_ptr}
use frog_kernel.Syscall.Life.{
  Wait, returned, asleep, is_waiting, is_dead, sys_exit, wake_parent, wake, sys_wait, wait_for,
  return_from, reap, fall_asleep,
}
use frog_kernel.Syscall.Life.Wake.{sys_wait-Sleeps, Sleeps}
use frog_kernel.Syscall.Life.Steps.{
  Activity, at_user, halted, in_wait, Fits, System, Step, exits, sleeps, returns, resumes, switches,
  Steps, done, step, IsCoherent, current, state_of, now_at,
}

-- But for links, no process is written.
abbrev SameProcs : {W : Type 0} → Kernel W → Kernel W → Type 0
SameProcs k k' = (u : ℕ) → set_next (k'.processes.procs u) 0 ≡ set_next (k.processes.procs u) 0

sys_exit_state :
    {W : Type 0} (r : Regs) (k : Kernel W) (u : ℕ)
    → (let p = k.scheduler.curr_process in
        let q = (k.processes.procs p).parent in
        let st = (k.processes.procs u).state in
        ((sys_exit r k).processes.procs u).state ≡ (
          if u == p then dead else if u == q && not (q == 0) && is_waiting st then running else st))
unfolding sys_exit wake_parent wake
sys_exit_state r k u = ground arith

sys_exit_code :
    {W : Type 0} (r : Regs) (k : Kernel W) (u : ℕ)
    → u ≢ k.scheduler.curr_process
    → ((sys_exit r k).processes.procs u).exit_code ≡ (k.processes.procs u).exit_code
unfolding sys_exit wake_parent wake
sys_exit_code r k u ne = ground (arith, ne)

module _ {W : Type 0} (drv : Drivers W) (mem : Memory W) (fuel : ℕ) where
  -- What `reap` and `sys_wait` leave of the processes when they return.
  abbrev Reaped : Kernel W → Option (Regs × Kernel W) → Type 0
  Reaped k none = Unit
  Reaped k (some q) = SameProcs k q.1

  abbrev Returned : Kernel W → Option (Wait W) → Type 0
  Returned k none = Unit
  Returned k (some (returned r' k')) = SameProcs k k'
  Returned k (some (asleep c k')) = Unit

  reap-Reaped : (r : Regs) (k : Kernel W) (c : ℕ) → Reaped k (reap drv mem fuel r k c)
  unfolding reap
  reap-Reaped r k c = elim (Option-cases (uprocess_remove fuel k.processes r.ebx)) [
    | inl out ↦ rw (Reaped, out) tt
    | inr (s, there) ↦
        rw (Reaped, there) (λ u. uprocess_remove-same fuel k.processes s r.ebx u there)
  ]

  return_from-Returned :
      (k : Kernel W) (o : Option (Regs × Kernel W))
      → Reaped k o
      → Returned k (return_from drv mem o)
  return_from-Returned k none same = tt
  return_from-Returned k (some q) same = same

  wait_for-Returned : (r : Regs) (k : Kernel W) (c : ℕ) → Returned k (wait_for drv mem fuel r k c)
  unfolding wait_for
  wait_for-Returned r k c = elim (Bool-cases (c == 0)) [
    | inl null ↦ rw null (λ u. refl)
    | inr there ↦ elim (Bool-cases ((k.processes.procs c).parent == k.scheduler.curr_process)) [
      | inl child ↦ elim (Bool-cases (is_dead (k.processes.procs c).state)) [
        | inl over ↦
            rw (there, child, over)
              (return_from-Returned k (reap drv mem fuel r k c) (reap-Reaped r k c))
        | inr alive ↦ rw (there, child, alive) tt
      ]
      | inr stranger ↦ rw (there, stranger) (λ u. refl)
    ]
  ]

  sys_wait-Returned : (r : Regs) (k : Kernel W) → Returned k (sys_wait drv mem fuel r k)
  unfolding sys_wait
  sys_wait-Returned r k = elim (Bool-cases (not (r.ecx == 0) && not (val_ptr r.ecx 4))) [
    | inl bad ↦ rw bad (λ u. refl)
    | inr good ↦ elim (Option-cases (uprocess_find fuel k.processes r.ebx)) [
      | inl out ↦ rw (good, out) tt
      | inr (c, found) ↦ rw (good, found) (wait_for-Returned r k c)
    ]
  ]

  -- The process that falls asleep is the only one that is written.
  asleep_procs :
      (r : Regs) (k k' : Kernel W) (c u : ℕ)
      → sys_wait drv mem fuel r k ≡ some (asleep c k')
      → k'.processes.procs u ≡ (
          if u == k.scheduler.curr_process
          then record (k.processes.procs u) { state = waiting }
          else k.processes.procs u)
  unfolding fall_asleep
  asleep_procs r k k' c u e =
      let (n, pc, alive, same) : Sleeps drv mem r k (some (asleep c k')) =
        subst (Sleeps drv mem r k) e (sys_wait-Sleeps drv mem fuel r k) in
      ap (λ z. z.processes.procs u) same ∙ ground arith

  asleep_other :
      (r : Regs) (k k' : Kernel W) (c u : ℕ)
      → sys_wait drv mem fuel r k ≡ some (asleep c k')
      → u ≢ k.scheduler.curr_process
      → k'.processes.procs u ≡ k.processes.procs u
  asleep_other r k k' c u e ne = asleep_procs r k k' c u e ∙ ground (arith, ne)

  not_current :
      (s : System W) (p : ℕ)
      → s.activity (current s) ≡ at_user
      → s.activity p ≡ halted
      → p ≢ current s
  not_current s p u h e = ground (arith, u, h, e)

  halted_at :
      (s : System W) (p : ℕ) → p ≢ 0 → IsCoherent s → state_of s p ≡ dead → s.activity p ≡ halted
  halted_at s p np i d = subst (λ st. Fits st (s.activity p)) d (i p np)

  -- A process stays dead through a step, with its exit code.
  dead-Step :
      (s t : System W) (p : ℕ)
      → Step drv mem fuel s t
      → p ≢ 0
      → IsCoherent s
      → state_of s p ≡ dead
      → (state_of t p ≡ dead)
        × ((t.kernel.processes.procs p).exit_code ≡ (s.kernel.processes.procs p).exit_code)
  dead-Step s t p (exits _ r nz u) np i d = (
    ground (arith, sys_exit_state r s.kernel p, d),
    sys_exit_code r s.kernel p (not_current s p u (halted_at s p np i d)),
  )
  dead-Step s t p (sleeps _ r c k' nz u e) np i d =
      let stays : k'.processes.procs p ≡ s.kernel.processes.procs p =
        asleep_other r s.kernel k' c p e (not_current s p u (halted_at s p np i d)) in
      (ap (λ x. x.state) stays ∙ d, ap (λ x. x.exit_code) stays)
  dead-Step s t p (returns _ r r' k' nz u e) np i d =
      let same : SameProcs s.kernel k' =
        subst (Returned s.kernel) e (sys_wait-Returned r s.kernel) in
      (ap (λ x. x.state) (same p) ∙ d, ap (λ x. x.exit_code) (same p))
  dead-Step s t p (resumes _ r c r' k' a w e) np i d =
      let same : SameProcs s.kernel k' = subst (Reaped s.kernel) e (reap-Reaped r s.kernel c) in
      (ap (λ x. x.state) (same p) ∙ d, ap (λ x. x.exit_code) (same p))
  dead-Step s t p (switches _ t') np i d = (d, refl)

  Fits-exit :
      (s : System W) (r : Regs) (p : ℕ)
      → p ≢ current s
      → Fits (state_of s p) (s.activity p)
      → Fits ((sys_exit r s.kernel).processes.procs p).state (s.activity p)
  Fits-exit s r p ne f = rw (sys_exit_state r s.kernel p, not_here) (other _ (state_of s p) f)
    where
      not_here : (p == current s) ≡ false
      not_here = ground (arith, ne)

      other :
          (b : Bool) (st : State)
          → Fits st (s.activity p)
          → Fits (if b && is_waiting st then running else st) (s.activity p)
      other true running f = f
      other true waiting (rw', c, e) = λ z. ground (arith, e, z)
      other true dead f = f
      other false st f = f

  -- A process that goes on behind its loop in `sys_wait` runs.
  awake :
      (st : State) (a : Activity) (r : Regs) (c : ℕ)
      → Fits st a
      → a ≡ in_wait r c
      → st ≢ waiting
      → Fits st at_user
  awake running a r c f e n = λ z. ground (arith, z)
  awake waiting a r c f e n = absurd (n refl)
  awake dead a r c f e n = ground (arith, f, e)

  -- Every step keeps the states of the processes coherent with where they are.
  pub Step-IsCoherent : (s t : System W) → Step drv mem fuel s t → IsCoherent s → IsCoherent t
  Step-IsCoherent s t (exits _ r nz u) i p np = elim (Bool-cases (p == current s)) [
    | inl here ↦ rw (sys_exit_state r s.kernel p, here) refl
    | inr other ↦ rw other (Fits-exit s r p (ground arith) (i p np))
  ]
  Step-IsCoherent s t (sleeps _ r c k' nz u e) i p np = elim (Bool-cases (p == current s)) [
    | inl here ↦ rw (asleep_procs r s.kernel k' c p e, here) (r, c, refl)
    | inr other ↦ rw (asleep_procs r s.kernel k' c p e, other) (i p np)
  ]
  Step-IsCoherent s t (returns _ r r' k' nz u e) i p np =
      let same : SameProcs s.kernel k' =
        subst (Returned s.kernel) e (sys_wait-Returned r s.kernel) in
      subst (λ st. Fits st (s.activity p)) (sym (ap (λ x. x.state) (same p))) (i p np)
  Step-IsCoherent s t (resumes _ r c r' k' a w e) i p np =
      let same : SameProcs s.kernel k' = subst (Reaped s.kernel) e (reap-Reaped r s.kernel c) in
      subst (λ st. Fits st (now_at s.activity (current s) at_user p))
        (sym (ap (λ x. x.state) (same p)))
        (elim (Bool-cases (p == current s)) [
          | inl here ↦ rw here (
              awake (state_of s p) (s.activity p) r c (i p np) (ap s.activity (ground arith) ∙ a)
                (λ z. w (ap (state_of s) (ground arith) ∙ z)))
          | inr other ↦ rw other (i p np)
        ])
  Step-IsCoherent s t (switches _ t') i p np = i p np

  -- However processes exit, wait and are switched, one that is dead stays dead, with the exit code that
  -- it gave, if the states of the processes agree at the start with where they are; and they still
  -- agree at the end.
  pub dead-Steps :
      (s t : System W) (p : ℕ)
      → Steps drv mem fuel s t
      → p ≢ 0
      → IsCoherent s
      → state_of s p ≡ dead
      → IsCoherent t
        × (state_of t p ≡ dead)
        × ((t.kernel.processes.procs p).exit_code ≡ (s.kernel.processes.procs p).exit_code)
  dead-Steps s t p (done _) np i d = (i, d, refl)
  dead-Steps s t p (step _ u _ first rest) np i d =
      let (d', e) = dead-Step s u p first np i d in
      let (j, d'', e') = dead-Steps u t p rest np (Step-IsCoherent s u first i) d' in
      (j, d'', e' ∙ e)
