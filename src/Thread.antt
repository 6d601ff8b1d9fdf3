-- ===== src/Thread.antt =====
-- Kernel threads, src/thread/kthread.c and kthread.h: the ring of threads, the choice of the next
-- one, and the switch. Threads stand at their addresses; NULL is 0.
pub mod Ring
pub mod Switch
pub mod Create
mod Tests
use frog_kernel.Base.{
  ℕ, zero, suc, ◌+◌, ◌-◌, ◌*◌, ◌/◌, ◌%◌, ◌^◌, Bool, true, false, not, ◌&&◌, ◌||◌, Option, none,
  some, ltb, ◌==◌, if◌then◌else◌, List, [], ◌∷◌,
}
use frog_kernel.Base.Store.{Array, update}

-- `thread_state_t`
pub data State : Type 0 where
  ready : State
  running : State
  blocked : State
  dead : State

-- `thread_t`, without the words on its stack. `page_dir` is that of its process.
pub record Thread : Type 0 where
  pub esp : ℕ
  pub stack_base : ℕ
  pub stack_size : ℕ
  pub state : State
  pub process : ℕ
  pub next : ℕ

-- The threads, `thread_list_head`, `curr_thread`, `idle_thread`, `curr_process`, the stack that the
-- TSS names, the page directory of each process, and `cr3`.
pub record Scheduler : Type 0 where
  pub threads : Array Thread
  pub head : ℕ
  pub curr : ℕ
  pub idle : ℕ
  pub curr_process : ℕ
  pub kernel_stack : ℕ
  pub page_dir : Array ℕ
  pub cr3 : ℕ

abbrev pub set_next : Thread → ℕ → Thread
set_next t n = record t { next = n }

abbrev pub set_state : Thread → State → Thread
set_state t st = record t { state = st }

abbrev pub put : Scheduler → (t : ℕ) → Thread → Scheduler
put s t th = record s { threads = update s.threads t th }

-- The walk to the thread whose `next` is the head, on fuel.
unfoldable pub find_tail : Scheduler → (fuel t : ℕ) → Option ℕ
find_tail s zero t = none
find_tail s (suc f) t =
    let later = find_tail s f (s.threads t).next in
    if (s.threads t).next == s.head then some t else later

-- `tail->next = t; t->next = thread_list_head;`
unfoldable pub link_behind : Scheduler → (tail t : ℕ) → Scheduler
link_behind s tail t =
    let s' = put s tail (set_next (s.threads tail) t) in put s' t (set_next (s'.threads t) s.head)

unfoldable pub scheduler_add : (fuel : ℕ) → Scheduler → (t : ℕ) → Option Scheduler
unfolding find_tail link_behind
scheduler_add fuel s t =
    if s.head == 0
    then some (record s { head = t; threads = update s.threads t (set_next (s.threads t) t) })
    else elim (find_tail s fuel s.head) [ none ↦ none | some tail ↦ some (link_behind s tail t) ]

abbrev pub runnable : State → Bool
runnable ready = true
runnable running = true
runnable blocked = false
runnable dead = false

-- The loop of `scheduler_next`, on fuel.
unfoldable pub scan : Scheduler → (start fuel t : ℕ) → Option ℕ
scan s start zero t = none
scan s start (suc f) t =
    let n = (s.threads t).next in
    let later = scan s start f n in
    if runnable (s.threads t).state then some t else if n == start then some s.idle else later

unfoldable pub scheduler_next : (fuel : ℕ) → Scheduler → Option ℕ
unfolding scan
scheduler_next fuel s =
    if s.curr == 0 then some s.idle else scan s (s.threads s.curr).next fuel (s.threads s.curr).next

abbrev pub dir_of : Scheduler → (process : ℕ) → ℕ
dir_of s p = if p == 0 then 0 else s.page_dir p

-- The switch to a thread that is not the current one.
unfoldable pub switch_to : (kernel_pd_phys : ℕ) → Scheduler → (n : ℕ) → ℕ × Scheduler
switch_to kernel_pd_phys s n =
    let old = s.threads s.curr in
    let s1 = put s s.curr (set_state old ready) in
    let s2 = put s1 n (set_state (s1.threads n) running) in
    let next_pd = dir_of s (s.threads n).process in
    let old_pd = dir_of s old.process in
    (
      (s.threads n).esp,
      record s2 {
        curr = n;
        curr_process = (s.threads n).process;
        kernel_stack = ((s.threads n).stack_base + (s.threads n).stack_size) % 2 ^ 32;
        cr3 =
            (if not (next_pd == 0)
              then next_pd
              else if not (old_pd == 0)
              then kernel_pd_phys
              else s.cr3);
      },
    )

abbrev pub save_esp : Scheduler → ℕ → Scheduler
save_esp s esp = record s {
  threads = update s.threads s.curr (record {
    esp = esp;
    stack_base = (s.threads s.curr).stack_base;
    stack_size = (s.threads s.curr).stack_size;
    state = (s.threads s.curr).state;
    process = (s.threads s.curr).process;
    next = (s.threads s.curr).next;
  });
}

-- The stack pointer to go on with. It is called with a current thread.
unfoldable pub scheduler_switch :
    (fuel kernel_pd_phys : ℕ) → Scheduler → (old_esp : ℕ) → Option (ℕ × Scheduler)
unfolding scheduler_next switch_to
scheduler_switch fuel kernel_pd_phys s old_esp =
    let saved = save_esp s old_esp in
    elim (scheduler_next fuel saved) [
      | none ↦ none
      | some n ↦
          if n == s.curr then some (old_esp, saved) else some (switch_to kernel_pd_phys saved n)
    ]
