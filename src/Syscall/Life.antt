-- ===== src/Syscall/Life.antt =====
-- The end of a process and the wait for it, `sys_exit` and `sys_wait` of src/userspace/usyscall.c.
-- Both stop in a loop around `hlt`; what runs meanwhile are other threads. A handler is cut there:
-- what comes after the loop of `sys_wait` is `reap`.
pub mod Steps
pub mod Wake
use frog_kernel.Base.{
  ℕ, ◌+◌, ◌/◌, ◌%◌, ◌^◌, Bool, true, false, not, ◌&&◌, Option, none, some, ◌==◌, if◌then◌else◌,
}
use frog_kernel.Base.Store.{Array, update}
use frog_kernel.Vfs.{Drivers}
use frog_kernel.Vfs.Calls.{set_world}
use frog_kernel.Thread
use frog_kernel.Thread.{Thread, Scheduler, set_state}
use frog_kernel.Process.{
  State, Process, Processes, running, dead, waiting, uprocess_find, uprocess_remove,
}
use frog_kernel.Syscall.{Regs, Memory, Kernel, val_ptr, set_eax, failed}

abbrev pub is_waiting : State → Bool
is_waiting running = false
is_waiting dead = false
is_waiting waiting = true

abbrev pub is_dead : State → Bool
is_dead running = false
is_dead dead = true
is_dead waiting = false

abbrev pub put_process : Processes → (p : ℕ) → Process → Processes
put_process s p proc = record s { procs = update s.procs p proc }

abbrev pub process_state : Process → State → Process
process_state p st = record p { state = st }

abbrev pub thread_state : Scheduler → (t : ℕ) → Thread.State → Scheduler
thread_state s t st = record s { threads = update s.threads t (set_state (s.threads t) st) }

-- How far `sys_wait` gets: it returns, or it sleeps until the state of the process changes.
pub data Wait (W : Type 0) : Type 0 where
  returned : Regs → Kernel W → Wait W
  asleep : (child : ℕ) → Kernel W → Wait W

module _ {W : Type 0} where
  -- `curr_process->parent->state = PROCESS_RUNNING; curr_process->parent->thread->state = THREAD_READY;`
  unfoldable pub wake : Kernel W → (parent : ℕ) → Kernel W
  wake k parent = record k {
    processes = put_process k.processes parent (process_state (k.processes.procs parent) running);
    scheduler = thread_state k.scheduler (k.processes.procs parent).thread Thread.ready;
  }

  unfoldable pub wake_parent : Kernel W → (parent : ℕ) → Kernel W
  unfolding wake
  wake_parent k parent =
      if not (parent == 0) && is_waiting (k.processes.procs parent).state then wake k parent else k

  -- `sys_exit` up to its loop, which it does not leave.
  unfoldable pub sys_exit : Regs → Kernel W → Kernel W
  unfolding wake_parent
  sys_exit r k =
      let p = k.scheduler.curr_process in
      let ended = record k {
        processes =
            put_process k.processes p
              (record (k.processes.procs p) { exit_code = r.ebx; state = dead });
        scheduler = thread_state k.scheduler k.scheduler.curr Thread.dead;
      } in
      record (wake_parent ended (k.processes.procs p).parent) { schedule_pending = 1 }

  -- The process and its thread are put to sleep.
  unfoldable pub fall_asleep : Kernel W → Kernel W
  fall_asleep k =
      let p = k.scheduler.curr_process in
      record k {
        processes = put_process k.processes p (process_state (k.processes.procs p) waiting);
        scheduler = thread_state k.scheduler k.scheduler.curr Thread.blocked;
        schedule_pending = 1;
      }

module _ {W : Type 0} (drv : Drivers W) (mem : Memory W) where
  -- `*exit_code = x`
  unfoldable pub save_word : (addr x : ℕ) → W → W
  save_word a x w = mem.save (a + 3) (x / 0x1000000 % 0x100) (
      mem.save (a + 2) (x / 0x10000 % 0x100)
        (mem.save (a + 1) (x / 0x100 % 0x100) (mem.save a (x % 0x100) w)))

  -- The stack, the thread and the process are freed.
  unfoldable pub free_child : Kernel W → (child : ℕ) → W → W
  free_child k child w =
      let thread = (k.processes.procs child).thread in
      drv.kfree child (drv.kfree thread (drv.kfree (k.scheduler.threads thread).stack_base w))

  -- What `sys_wait` does with the child, whether it had to sleep or not. `none`: the fuel of
  -- `uprocess_remove` is used up.
  unfoldable pub reap : (fuel : ℕ) → Regs → Kernel W → (child : ℕ) → Option (Regs × Kernel W)
  unfolding save_word free_child
  reap fuel r k child =
      let code = (k.processes.procs child).exit_code in
      let told = (if r.ecx == 0 then k.vfs.world else save_word r.ecx code k.vfs.world) in
      elim (uprocess_remove fuel k.processes r.ebx) [
        | none ↦ none
        | some s ↦ some (
          set_eax r 0,
          record k { processes = s; vfs = set_world k.vfs (free_child k child told) },
        )
      ]

  abbrev pub return_from : Option (Regs × Kernel W) → Option (Wait W)
  return_from none = none
  return_from (some (r, k)) = some (returned r k)

  -- `sys_wait` on the process that was found.
  unfoldable pub wait_for : (fuel : ℕ) → Regs → Kernel W → (child : ℕ) → Option (Wait W)
  unfolding reap fall_asleep
  wait_for fuel r k child =
      let failure = failed r k in
      if child == 0
      then some (returned failure.0 failure.1)
      else if not ((k.processes.procs child).parent == k.scheduler.curr_process)
      then some (returned failure.0 failure.1)
      else if is_dead (k.processes.procs child).state
      then return_from (reap fuel r k child)
      else some (asleep child (fall_asleep k))

  -- `none`: the fuel of `uprocess_find` or `uprocess_remove` is used up.
  unfoldable pub sys_wait : (fuel : ℕ) → Regs → Kernel W → Option (Wait W)
  unfolding wait_for
  sys_wait fuel r k =
      let failure = failed r k in
      if not (r.ecx == 0) && not (val_ptr r.ecx 4)
      then some (returned failure.0 failure.1)
      else elim (uprocess_find fuel k.processes r.ebx) [
        | none ↦ none
        | some child ↦ wait_for fuel r k child
      ]
