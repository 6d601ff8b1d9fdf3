-- ===== src/Thread/Switch.antt =====
-- The switch between threads, `scheduler_switch` of src/thread/kthread.c.
use frog_kernel.Base.{
  ℕ, zero, suc, ◌+◌, ◌%◌, ◌^◌, ◌≡◌, ◌≢◌, ◌∙◌, refl, some, ◌==◌, if◌then◌else◌, arith,
}
use frog_kernel.Thread.{
  ready, running, Scheduler, scan, scheduler_next, scheduler_switch, switch_to, save_esp,
}

same_next : (s : Scheduler) (esp t : ℕ) → ((save_esp s esp).threads t).next ≡ (s.threads t).next
same_next s esp t = ground arith

-- Saving a stack pointer does not touch what the choice depends on.
scan-save_esp :
    (s : Scheduler) (esp stop fuel t : ℕ) → scan (save_esp s esp) stop fuel t ≡ scan s stop fuel t
unfolding scan
scan-save_esp s esp stop zero t = refl
scan-save_esp s esp stop (suc f) t =
    rw (same_next s esp t, same_state, scan-save_esp s esp stop f (s.threads t).next) refl
  where
    same_state : ((save_esp s esp).threads t).state ≡ (s.threads t).state
    same_state = ground arith

scheduler_next-save_esp :
    (fuel : ℕ) (s : Scheduler) (esp : ℕ)
    → scheduler_next fuel (save_esp s esp) ≡ scheduler_next fuel s
unfolding scheduler_next
scheduler_next-save_esp fuel s esp =
    rw
      (
        same_next s esp s.curr,
        scan-save_esp s esp (s.threads s.curr).next fuel (s.threads s.curr).next,
      )
      refl

-- What a switch from the current thread to another one, `n`, leaves.
pub record Switched (s : Scheduler) (old_esp n : ℕ) (s' : Scheduler) : Type 0 where
  pub curr : s'.curr ≡ n
  pub process : s'.curr_process ≡ (s.threads n).process
  pub stack : s'.kernel_stack ≡ ((s.threads n).stack_base + (s.threads n).stack_size) % 2 ^ 32
  pub saved : (s'.threads s.curr).esp ≡ old_esp
  pub old : (s'.threads s.curr).state ≡ ready
  pub new : (s'.threads n).state ≡ running
  pub others : (t : ℕ) → t ≢ s.curr → t ≢ n → s'.threads t ≡ s.threads t
  pub links : (t : ℕ) → (s'.threads t).next ≡ (s.threads t).next

switch_to-Switched :
    (kernel_pd_phys : ℕ) (s : Scheduler) (old_esp n : ℕ)
    → n ≢ s.curr
    → Switched s old_esp n (switch_to kernel_pd_phys (save_esp s old_esp) n).1
unfolding switch_to
switch_to-Switched kpd s old_esp n h = record {
  curr = refl;
  process = ground (arith, h);
  stack = ground (arith, h);
  saved = ground (arith, h);
  old = ground (arith, h);
  new = ground (arith, h);
  others = λ t a b. ground (arith, a, b);
  links = λ t. ground arith;
}

-- If the choice falls on another thread than the current one, `scheduler_switch` goes on with that
-- thread's stack, process and kernel stack. The current thread keeps its stack pointer and becomes
-- ready, whatever state it was in, even dead or blocked; the chosen one runs. No other thread
-- changes, and no link. If the choice falls on the current thread, only its stack pointer is saved.
pub scheduler_switch_lem :
    (fuel kernel_pd_phys : ℕ) (s : Scheduler) (old_esp n : ℕ)
    → scheduler_next fuel s ≡ some n
    → (n ≡ s.curr
        → scheduler_switch fuel kernel_pd_phys s old_esp ≡ some (old_esp, save_esp s old_esp))
      × (n ≢ s.curr
          → (s' : Scheduler) × (scheduler_switch fuel kernel_pd_phys s old_esp
              ≡ some ((s.threads n).esp, s'))
            × Switched s old_esp n s')
unfolding scheduler_switch
scheduler_switch_lem fuel kpd s old_esp n e = (
  λ same. chosen ∙ ground (arith, same),
  λ other. (
    (switch_to kpd (save_esp s old_esp) n).1,
    chosen ∙ ground (arith, other),
    switch_to-Switched kpd s old_esp n other,
  ),
)
  where
    chosen : scheduler_switch fuel kpd s old_esp ≡ (
        if n == s.curr
        then some (old_esp, save_esp s old_esp)
        else some (switch_to kpd (save_esp s old_esp) n))
    chosen = rw (scheduler_switch, scheduler_next-save_esp fuel s old_esp ∙ e) refl
