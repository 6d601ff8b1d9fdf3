-- ===== src/Thread/Create.antt =====
-- The creation of a kernel thread, `kthread_create` of src/thread/kthread.c: its stack is laid out as
-- if an interrupt had stopped it at its entry. The words of the kernel's memory stand at their
-- addresses. `dir` is the frame of the directory in `cr3`.
pub mod Frame
use frog_kernel.Base.{
  ℕ, zero, suc, ◌+◌, ◌-◌, ◌/◌, ◌%◌, ◌^◌, Option, none, some, List, [], ◌∷◌, ◌++◌, ◌==◌,
  if◌then◌else◌,
}
use frog_kernel.Base.Store.{Array, update, Outcome, ok, panic, ◌>>=◌}
use frog_kernel.Memory.Pmm.{page_size}
use frog_kernel.Memory.Heap.{Heap, kmalloc}
use frog_kernel.Memory.Heap.Pages.{kalloc_pages}
use frog_kernel.Thread.{State, ready, Thread}

abbrev pub seg_kcode : ℕ
seg_kcode = 0x08

abbrev pub seg_kdata : ℕ
seg_kdata = 0x10

-- `sizeof(thread_t)`
abbrev pub thread_size : ℕ
thread_size = 24

-- The heap, `large_alloc_base`, and the words of memory.
pub record Kmem : Type 0 where
  pub heap : Heap
  pub large_alloc_base : ℕ
  pub words : Array ℕ

-- A call that may run out of fuel and may panic, and what follows it.
abbrev pub then_do {ℓ κ} :
    {A : Type ℓ} {B : Type κ} → Option (Outcome A) → (A → Option (Outcome B)) → Option (Outcome B)
then_do none f = none
then_do (some panic) f = some panic
then_do (some (ok a)) f = f a

unfoldable pub alloc_stack : (dir : ℕ) → Kmem → (num_pages : ℕ) → Outcome (ℕ × Kmem)
alloc_stack dir k num_pages =
    kalloc_pages dir k.large_alloc_base num_pages k.heap.space >>= λ (base, next, space). ok (
      base,
      record { heap = record k.heap { space = space }; large_alloc_base = next; words = k.words },
    )

-- `*--sp = v;` for each word of a list.
unfoldable pub push_down : Array ℕ → (sp : ℕ) → List ℕ → Array ℕ × ℕ
push_down words sp [] = (words, sp)
push_down words sp (v ∷ vs) =
    let at = (sp + 2 ^ 32 - 4) % 2 ^ 32 in push_down (update words at v) at vs

abbrev pub kthread_words : (entry : ℕ) → List ℕ
kthread_words entry =
    0x00200202 ∷ seg_kcode ∷ entry ∷ 32 ∷ 0 ∷ 0 ∷ 0 ∷ 0 ∷ 0 ∷ 0 ∷ 0 ∷ 0 ∷ 0 ∷ seg_kdata ∷ seg_kdata
    ∷ seg_kdata ∷ seg_kdata ∷ []

-- The thread, and the words of memory with its stack.
unfoldable pub init_thread : Array ℕ → (stack_base stack_size entry : ℕ) → Thread × Array ℕ
init_thread words stack_base stack_size entry =
    let (words', sp) = push_down words ((stack_base + stack_size) % 2 ^ 32) (kthread_words entry) in
    (
      record {
        esp = sp;
        stack_base = stack_base;
        stack_size = stack_size;
        state = ready;
        process = 0;
        next = 0;
      },
      words',
    )

abbrev pub stack_pages : ℕ → ℕ
stack_pages stack_size = (stack_size + page_size - 1) % 2 ^ 32 / page_size

-- The address of the thread, what stands there, and the memory. `none`: the fuel of `kmalloc` is
-- used up.
unfoldable pub kthread_create :
    (fuel dir : ℕ) → Kmem → (entry stack_size : ℕ) → Option (Outcome (ℕ × Thread × Kmem))
unfolding alloc_stack init_thread
kthread_create fuel dir k entry stack_size =
    then_do (kmalloc fuel dir k.heap thread_size) λ (t, heap).
      then_do (some (alloc_stack dir (record k { heap = heap }) (stack_pages stack_size)))
        λ (base, k').
          let (thread, words) = init_thread k'.words base stack_size entry in
          some (ok (t, thread, record k' { words = words }))
