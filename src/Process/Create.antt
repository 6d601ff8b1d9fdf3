-- ===== src/Process/Create.antt =====
-- The creation of a process, `uprocess_create` of src/userspace/uprocess.c: its entry in the list,
-- its thread, and a kernel stack laid out as if an interrupt had stopped it at the program's entry.
pub mod Ids
pub mod Start
use frog_kernel.Base.{ℕ, ◌+◌, ◌/◌, ◌%◌, ◌^◌, Option, some, List, [], ◌∷◌, ◌==◌, if◌then◌else◌}
use frog_kernel.Base.Store.{Array, update, Outcome, ok}
use frog_kernel.Memory.Pmm.{page_size}
use frog_kernel.Memory.Heap.{Heap, kmalloc}
use frog_kernel.Thread
use frog_kernel.Thread.{Thread}
use frog_kernel.Thread.Create.{Kmem, then_do, alloc_stack, push_down, thread_size}
use frog_kernel.Process.{Process, Processes, running, process_list_add}

abbrev pub seg_ucode : ℕ
seg_ucode = 0x1b

abbrev pub seg_udata : ℕ
seg_udata = 0x23

abbrev pub kstack_size : ℕ
kstack_size = 0x2000

-- `sizeof(process_t)`, 256 descriptors included.
abbrev pub process_size : ℕ
process_size = 1064

-- The memory, the processes, the threads, and the tables of descriptors by process.
pub record Machine : Type 0 where
  pub kmem : Kmem
  pub processes : Processes
  pub threads : Array Thread
  pub tables : ℕ → Array ℕ

abbrev pub process_words : (entry esp : ℕ) → List ℕ
process_words entry esp =
    seg_udata ∷ esp ∷ 0x202 ∷ seg_ucode ∷ entry ∷ 0 ∷ 32 ∷ 0 ∷ 0 ∷ 0 ∷ 0 ∷ 0 ∷ 0 ∷ 0 ∷ 0 ∷ seg_udata
    ∷ seg_udata ∷ seg_udata ∷ seg_udata ∷ []

-- The new process at `p` takes the next number.
unfoldable pub new_process : Processes → (p thread entry page_dir heap_start : ℕ) → Processes
new_process s p thread entry page_dir heap_start = record s {
  procs = update s.procs p (record {
    pid = s.next_pid;
    page_dir = page_dir;
    entry = entry;
    thread = thread;
    state = running;
    parent = 0;
    next = 0;
    exit_code = 0;
    heap_start = heap_start;
    heap_end = heap_start;
  });
  next_pid = (s.next_pid + 1) % 2 ^ 32;
}

unfoldable pub enlist : Processes → (p thread entry page_dir heap_start : ℕ) → Processes
unfolding new_process
enlist s p thread entry page_dir heap_start =
    process_list_add (new_process s p thread entry page_dir heap_start) p

-- Its thread, on the stack at `stack_base`, and the words of memory.
unfoldable pub process_thread : Array ℕ → (stack_base p entry esp : ℕ) → Thread × Array ℕ
process_thread words stack_base p entry esp =
    let (words', sp) =
      push_down words ((stack_base + kstack_size) % 2 ^ 32) (process_words entry esp) in
    (
      record {
        esp = sp;
        stack_base = stack_base;
        stack_size = kstack_size;
        state = Thread.ready;
        process = p;
        next = 0;
      },
      words',
    )

-- What follows the three allocations: process `p`, thread `t` and the stack.
unfoldable pub set_up : Machine → (p t stack_base entry page_dir heap_start esp : ℕ) → Machine
unfolding enlist process_thread
set_up m p t stack_base entry page_dir heap_start esp =
    let (thread, words) = process_thread m.kmem.words stack_base p entry esp in
    record {
      kmem = record m.kmem { words = words };
      processes = enlist m.processes p t entry page_dir heap_start;
      threads = update m.threads t thread;
      tables = λ q. if q == p then (λ fd. 0) else m.tables q;
    }

abbrev pub set_heap : Kmem → Heap → Kmem
set_heap k heap = record k { heap = heap }

-- The address of the new process. `none`: the fuel of `kmalloc` is used up.
unfoldable pub uprocess_create :
    (fuel dir : ℕ) → Machine → (entry page_dir heap_start esp : ℕ) → Option (Outcome (ℕ × Machine))
unfolding alloc_stack set_up
uprocess_create fuel dir m entry page_dir heap_start esp =
    then_do (kmalloc fuel dir m.kmem.heap process_size) λ (p, heap1).
      then_do (kmalloc fuel dir heap1 thread_size) λ (t, heap2).
        then_do (some (alloc_stack dir (set_heap m.kmem heap2) (kstack_size / page_size)))
          λ (stack_base, kmem).
            some (
              ok
                (p, set_up (record m { kmem = kmem }) p t stack_base entry page_dir heap_start esp))
