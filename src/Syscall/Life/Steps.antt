-- ===== src/Syscall/Life/Steps.antt =====
-- Processes that exit and wait, src/userspace/usyscall.c, as a system of steps: which one runs is
-- for the scheduler to choose, and a handler that sleeps goes on when its process is chosen again.
pub mod Dead
use frog_kernel.Base.{
  ℕ, ◌≡◌, ◌≢◌, ◌==◌, ◌⊎◌, inl, inr, refl, sym, ◌∙◌, ap, true, false, not, ◌&&◌, Option, none, some,
  Bool-cases, if◌then◌else◌, arith,
}
use frog_kernel.Base.Store.{Array, update}
use frog_kernel.Vfs.{Drivers}
use frog_kernel.Thread.{Scheduler}
use frog_kernel.Process.{State, Process, Processes, running, dead, waiting}
use frog_kernel.Syscall.{Regs, Memory, Kernel}
use frog_kernel.Syscall.Life.{Wait, returned, asleep, sys_exit, sys_wait, reap, fall_asleep}

-- Where a process is: in its program, in the last loop of `sys_exit`, or in the loop of `sys_wait`,
-- called with these registers, for a child.
pub data Activity : Type 0 where
  at_user : Activity
  halted : Activity
  in_wait : Regs → (child : ℕ) → Activity

pub record System (W : Type 0) : Type 0 where
  pub kernel : Kernel W
  pub activity : ℕ → Activity

abbrev pub now_at {ℓ} : {A : Type ℓ} → (ℕ → A) → ℕ → A → ℕ → A
now_at f p a q = if q == p then a else f q

module _ {W : Type 0} where
  abbrev pub current : System W → ℕ
  current s = s.kernel.scheduler.curr_process

  abbrev pub state_of : System W → ℕ → State
  state_of s p = (s.kernel.processes.procs p).state

module _ {W : Type 0} (drv : Drivers W) (mem : Memory W) (fuel : ℕ) where
  pub data Step : System W → System W → Type 0 where
    exits :
        (s : System W) (r : Regs)
        → current s ≢ 0
        → s.activity (current s) ≡ at_user
        → Step s (record {
          kernel = sys_exit r s.kernel;
          activity = now_at s.activity (current s) halted;
        })
    sleeps :
        (s : System W) (r : Regs) (c : ℕ) (k' : Kernel W)
        → current s ≢ 0
        → s.activity (current s) ≡ at_user
        → sys_wait drv mem fuel r s.kernel ≡ some (asleep c k')
        → Step s (record { kernel = k'; activity = now_at s.activity (current s) (in_wait r c) })
    returns :
        (s : System W) (r r' : Regs) (k' : Kernel W)
        → current s ≢ 0
        → s.activity (current s) ≡ at_user
        → sys_wait drv mem fuel r s.kernel ≡ some (returned r' k')
        → Step s (record { kernel = k'; activity = s.activity })
    resumes :
        (s : System W) (r : Regs) (c : ℕ) (r' : Regs) (k' : Kernel W)
        → s.activity (current s) ≡ in_wait r c
        → state_of s (current s) ≢ waiting
        → reap drv mem fuel r s.kernel c ≡ some (r', k')
        → Step s (record { kernel = k'; activity = now_at s.activity (current s) at_user })
    switches :
        (s : System W) (t : Scheduler)
        → Step s (record s { kernel = record s.kernel { scheduler = t } })

  pub data Steps : System W → System W → Type 0 where
    done : (s : System W) → Steps s s
    step : (s t u : System W) → Step s t → Steps t u → Steps s u

-- A process that runs is in its program or about to leave `sys_wait`; one that waits is in
-- `sys_wait`; a dead one is in the last loop of `sys_exit`.
abbrev pub Fits : State → Activity → Type 0
Fits running a = a ≢ halted
Fits waiting a = (r : Regs) × (c : ℕ) × (a ≡ in_wait r c)
Fits dead a = a ≡ halted

-- The state of each process agrees with where it is.
abbrev pub IsCoherent : {W : Type 0} → System W → Type 0
IsCoherent s = (p : ℕ) → p ≢ 0 → Fits (state_of s p) (s.activity p)
