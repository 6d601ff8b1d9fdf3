-- ===== src/Syscall/Life/Wake.antt =====
-- What `sys_exit` of src/userspace/usyscall.c leaves, and whom it wakes.
use frog_kernel.Base.{
  ℕ, ◌≡◌, ◌≢◌, ◌⊎◌, inl, inr, refl, sym, ◌∙◌, ap, not, ◌&&◌, Option, none, some, Bool-cases,
  Option-cases, ◌==◌, arith,
}
use mathlib.Core.Path.{subst}
use frog_kernel.Vfs.{Drivers}
use frog_kernel.Thread
use frog_kernel.Thread.{Scheduler}
use frog_kernel.Process.{Process, running, dead, waiting, uprocess_find}
use frog_kernel.Syscall.{Regs, Memory, Kernel, val_ptr}
use frog_kernel.Syscall.Life.{
  Wait, returned, asleep, is_dead, sys_exit, wake_parent, wake, fall_asleep, reap, return_from,
  wait_for, sys_wait,
}

-- The process `p` as `sys_exit` leaves it.
abbrev pub ended : Process → (code : ℕ) → Process
ended p code = record p { exit_code = code; state = dead }

module _ {W : Type 0} where
  -- What `sys_exit` leaves of the processes and of the thread of the parent `q`.
  pub record Ended (k : Kernel W) (code : ℕ) (k' : Kernel W) : Type 0 where
    pub own :
        k'.processes.procs k.scheduler.curr_process
        ≡ ended (k.processes.procs k.scheduler.curr_process) code
    pub woken :
        (q : ℕ)
        → q ≡ (k.processes.procs k.scheduler.curr_process).parent
        → q ≢ 0
        → (k.processes.procs q).state ≡ waiting
        → ((k'.processes.procs q).state ≡ running)
          × ((k'.scheduler.threads (k.processes.procs q).thread).state ≡ Thread.ready)
    pub others :
        (u : ℕ)
        → u ≢ k.scheduler.curr_process
        → (u ≢ (k.processes.procs k.scheduler.curr_process).parent)
          ⊎ ((k.processes.procs u).state ≢ waiting)
        → k'.processes.procs u ≡ k.processes.procs u
    pub lists : k'.processes.process_list ≡ k.processes.process_list
    pub pending : k'.schedule_pending ≡ 1

  -- If the process that runs is not its own parent, `sys_exit` ends it with the code in EBX. If its
  -- parent waits, the parent runs on and its thread is ready; no other process changes, the list of
  -- processes stays, and the scheduler is asked for.
  pub sys_exit_lem :
      (r : Regs) (k : Kernel W)
      → (k.processes.procs k.scheduler.curr_process).parent ≢ k.scheduler.curr_process
      → Ended k r.ebx (sys_exit r k)
  unfolding sys_exit wake_parent wake
  sys_exit_lem r k apart = record {
    own = ground (arith, apart);
    woken = λ q e nz w. (ground (arith, apart, e, nz, w), ground (arith, apart, e, nz, w));
    others = λ u ne h. ground (arith, apart, ne, h);
    lists = ground arith;
    pending = ground arith;
  }

-- What `sys_wait` has checked when it puts the process that runs to sleep.
module _ {W : Type 0} (drv : Drivers W) (mem : Memory W) where
  abbrev pub Sleeps : Regs → Kernel W → Option (Wait W) → Type 0
  Sleeps r k none = Unit
  Sleeps r k (some (returned r' k')) = Unit
  Sleeps r k (some (asleep c k')) =
      (c ≢ 0)
      × ((k.processes.procs c).parent ≡ k.scheduler.curr_process)
      × ((k.processes.procs c).state ≢ dead)
      × (k' ≡ fall_asleep k)

  return_from-Sleeps :
      (r : Regs) (k : Kernel W) (o : Option (Regs × Kernel W)) → Sleeps r k (return_from drv mem o)
  return_from-Sleeps r k none = tt
  return_from-Sleeps r k (some q) = tt

  wait_for-Sleeps :
      (fuel : ℕ) (r : Regs) (k : Kernel W) (c : ℕ) → Sleeps r k (wait_for drv mem fuel r k c)
  unfolding wait_for
  wait_for-Sleeps fuel r k c = elim (Bool-cases (c == 0)) [
    | inl null ↦ rw null tt
    | inr there ↦ elim (Bool-cases ((k.processes.procs c).parent == k.scheduler.curr_process)) [
      | inl child ↦ elim (Bool-cases (is_dead (k.processes.procs c).state)) [
        | inl over ↦ rw (there, child, over) (return_from-Sleeps r k (reap drv mem fuel r k c))
        | inr alive ↦
            rw (there, child, alive) (ground arith, ground arith, ground (arith, alive), refl)
      ]
      | inr stranger ↦ rw (there, stranger) tt
    ]
  ]

  pub sys_wait-Sleeps :
      (fuel : ℕ) (r : Regs) (k : Kernel W) → Sleeps r k (sys_wait drv mem fuel r k)
  unfolding sys_wait
  sys_wait-Sleeps fuel r k = elim (Bool-cases (not (r.ecx == 0) && not (val_ptr r.ecx 4))) [
    | inl bad ↦ rw bad tt
    | inr good ↦ elim (Option-cases (uprocess_find fuel k.processes r.ebx)) [
      | inl out ↦ rw (good, out) tt
      | inr (c, found) ↦ rw (good, found) (wait_for-Sleeps fuel r k c)
    ]
  ]

  -- If `sys_wait` puts the process that runs, `q`, to sleep over its child `c`, and a child `d` of `q`
  -- runs next and exits, whatever the scheduler has done meanwhile, then `q` waits no longer and its
  -- thread is ready. If `d` is `c`, then `c` is dead with the code that `d` gave. If `d` is another
  -- child, then `c` is as it was, and not dead, although `q` no longer waits.
  pub sys_exit-sys_wait :
      (fuel : ℕ) (r rx : Regs) (k k' : Kernel W) (c : ℕ) (t : Scheduler)
      → sys_wait drv mem fuel r k ≡ some (asleep c k')
      → k.scheduler.curr_process ≢ 0
      → c ≢ k.scheduler.curr_process
      → t.curr_process ≢ k.scheduler.curr_process
      → (k.processes.procs t.curr_process).parent ≡ k.scheduler.curr_process
      → (let q = k.scheduler.curr_process in
          let after = sys_exit rx (record k' { scheduler = t }) in
          ((after.processes.procs q).state ≡ running)
          × ((after.scheduler.threads (k.processes.procs q).thread).state ≡ Thread.ready)
          × (t.curr_process ≡ c
              → ((after.processes.procs c).state ≡ dead)
                × ((after.processes.procs c).exit_code ≡ rx.ebx))
          × (t.curr_process ≢ c
              → (after.processes.procs c ≡ k.processes.procs c)
                × ((after.processes.procs c).state ≢ dead)))
  unfolding fall_asleep
  sys_exit-sys_wait fuel r rx k k' c t e nz nc nt parent =
      let (nn, pc, alive, same) : Sleeps r k (some (asleep c k')) =
        subst (Sleeps r k) e (sys_wait-Sleeps fuel r k) in
      let x =
        sys_exit_lem rx (record k' { scheduler = t })
          (λ z. nt (sym z ∙ ap (λ p. p.parent) (seen same t.curr_process nt) ∙ parent)) in
      let (runs, thread) =
        x.woken q (sym (ap (λ p. p.parent) (seen same t.curr_process nt) ∙ parent)) nz
          (ap (λ p. p.state) (own same)) in
      (
        runs,
        ap (λ n. (after.scheduler.threads n).state) (sym (ap (λ p. p.thread) (own same))) ∙ thread,
        λ d. (
          ap (λ u. (after.processes.procs u).state) (sym d) ∙ ap (λ p. p.state) x.own,
          ap (λ u. (after.processes.procs u).exit_code) (sym d) ∙ ap (λ p. p.exit_code) x.own,
        ),
        λ d.
            let stays : after.processes.procs c ≡ k.processes.procs c =
              x.others c (λ z. d (sym z))
                (inl (λ z. nc (z ∙ ap (λ p. p.parent) (seen same t.curr_process nt) ∙ parent)))
              ∙ seen same c nc in
            (stays, λ z. alive (sym (ap (λ p. p.state) stays) ∙ z)),
      )
    where
      q : ℕ
      q = k.scheduler.curr_process

      after : Kernel W
      after = sys_exit rx (record k' { scheduler = t })

      seen : k' ≡ fall_asleep k → (u : ℕ) → u ≢ q → k'.processes.procs u ≡ k.processes.procs u
      seen same u ne = ap (λ z. z.processes.procs u) same ∙ ground (arith, ne)

      own :
          k' ≡ fall_asleep k
          → k'.processes.procs q ≡ record (k.processes.procs q) { state = waiting }
      own same = ap (λ z. z.processes.procs q) same ∙ ground arith
