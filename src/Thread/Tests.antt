-- ===== src/Thread/Tests.antt =====
-- Three threads in a ring, the second of which is dead, and the third waits.
use frog_kernel.Base.{ℕ, ◌≡◌, ◌≢◌, ◌==◌, [], ◌∷◌, some, if◌then◌else◌, arith, refl}
use frog_kernel.Thread.{
  State, ready, running, dead, Thread, Scheduler, scheduler_next, scheduler_switch, save_esp, scan,
}
use frog_kernel.Thread.Ring.{first_runnable, scheduler_next_lem}
use frog_kernel.Thread.Switch.{Switched, scheduler_switch_lem}

abbrev thread : State → ℕ → Thread
thread st n = record {
  esp = 0x100;
  stack_base = 0x1000;
  stack_size = 0x2000;
  state = st;
  process = 0;
  next = n;
}

-- The fourth thread is the idle one, outside the ring.
abbrev sched : Scheduler
sched = record {
  threads = λ t.
      if t == 1
      then thread running 2
      else if t == 2
      then thread dead 3
      else if t == 3
      then thread ready 1
      else thread ready 0;
  head = 1;
  curr = 1;
  idle = 4;
  curr_process = 0;
  kernel_stack = 0;
  page_dir = λ p. 0;
  cr3 = 0x1000;
}

scheduler_next_lem_example : scheduler_next 8 sched ≡ some (first_runnable sched (2 ∷ 3 ∷ 1 ∷ []))
scheduler_next_lem_example =
    scheduler_next_lem 8 sched (3 ∷ 1 ∷ []) (λ e. omega arith)
      (refl, (λ e. omega arith), (refl, (λ e. omega arith), refl)) (omega arith)

chosen : scheduler_next 8 sched ≡ some 3
unfolding scheduler_next scan
chosen = refl

scheduler_switch_lem_example :
    (3 ≡ sched.curr → scheduler_switch 8 0x1000 sched 0x200 ≡ some (0x200, save_esp sched 0x200))
    × (3 ≢ sched.curr
        → (s' : Scheduler) × (scheduler_switch 8 0x1000 sched 0x200 ≡ some (0x100, s'))
          × Switched sched 0x200 3 s')
scheduler_switch_lem_example = scheduler_switch_lem 8 0x1000 sched 0x200 3 chosen
