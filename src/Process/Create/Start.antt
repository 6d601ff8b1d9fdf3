-- ===== src/Process/Create/Start.antt =====
-- That the kernel stack of a new process of src/userspace/uprocess.c returns to its program.
use frog_kernel.Base.{ℕ, ◌+◌, ◌%◌, ◌^◌, ◌≤◌, ◌<◌, ◌≡◌, ◌⊎◌, refl, [], ◌∷◌, ◌++◌, arith}
use frog_kernel.Base.Store.{Array}
use frog_kernel.Thread
use frog_kernel.Thread.Create.{push_down}
use frog_kernel.Thread.Create.Frame.{Words, Registers, frame_words, Pushed, push_down_lem}
use frog_kernel.Process.Create.{seg_ucode, seg_udata, kstack_size, process_words, process_thread}

-- The registers with which a program starts.
abbrev pub user_start : (entry : ℕ) → Registers
user_start entry = record {
  gs = seg_udata;
  fs = seg_udata;
  es = seg_udata;
  ds = seg_udata;
  edi = 0;
  esi = 0;
  ebp = 0;
  esp = 0;
  ebx = 0;
  edx = 0;
  ecx = 0;
  eax = 0;
  int_num = 32;
  err_code = 0;
  eip = entry;
  cs = seg_ucode;
  eflags = 0x202;
}

-- If its kernel stack does not reach past 2^32, the thread of a new process is ready and belongs to
-- it, and its stack pointer lies 76 bytes below the end of the stack. From there on stand the
-- registers of an interrupt that returns to the program's entry in the user's segments, then the
-- user's stack pointer and stack segment; no other word of memory has changed.
pub process_thread_lem :
    (m : Array ℕ) (base p entry esp : ℕ)
    → base + kstack_size < 2 ^ 32
    → (let (t, m') = process_thread m base p entry esp in
        (t.esp + 76 ≡ base + kstack_size)
        × (t.state ≡ Thread.ready)
        × (t.process ≡ p)
        × Words m' t.esp (frame_words (user_start entry) ++ esp ∷ seg_udata ∷ [])
        × ((i : ℕ) → (i < t.esp) ⊎ (base + kstack_size ≤ i) → m' i ≡ m i))
unfolding process_thread
process_thread_lem m base p entry esp k = rw (end, pushed.0) (refl, refl, refl, pushed.1, pushed.2)
  where
    end : (base + kstack_size) % 2 ^ 32 ≡ base + kstack_size
    end = omega arith

    pushed :
        Pushed m
          (base + kstack_size)
          (process_words entry esp)
          []
          (push_down m (base + kstack_size) (process_words entry esp))
    pushed = push_down_lem m (base + kstack_size) (process_words entry esp) [] (omega arith) k tt
