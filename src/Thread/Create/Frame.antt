-- ===== src/Thread/Create/Frame.antt =====
-- What the return from an interrupt finds on a stack, src/idt/isr.h and isr_stubs.s, and that it
-- starts a new thread of src/thread/kthread.c at its entry.
use frog_kernel.Base.{
  ℕ, ◌+◌, ◌-◌, ◌*◌, ◌%◌, ◌⊎◌, ◌^◌, ◌≤◌, ◌<◌, ◌≡◌, refl, List, [], ◌∷◌, length, arith, ◌∙◌,
}
use frog_kernel.Base.Store.{Array, update}
use frog_kernel.Thread.{ready}
use frog_kernel.Thread.Create.{push_down, kthread_words, init_thread, seg_kdata, seg_kcode}

-- The words from an address on.
abbrev pub Words : Array ℕ → (a : ℕ) → List ℕ → Type 0
Words m a [] = Unit
Words m a (v ∷ vs) = (m a ≡ v) × Words m (a + 4) vs

abbrev pub rev_onto : List ℕ → List ℕ → List ℕ
rev_onto [] ys = ys
rev_onto (x ∷ xs) ys = rev_onto xs (x ∷ ys)

Words-update :
    (m : Array ℕ) (p v a : ℕ) (vs : List ℕ) → p < a → Words m a vs → Words (update m p v) a vs
Words-update m p v a [] h w = tt
Words-update m p v a (x ∷ vs) h (e, w) =
    (ground (arith, e), Words-update m p v (a + 4) vs (omega arith) w)

-- What pushes leave: the words in the reverse order, below those that stood there, and nothing else
-- changed.
abbrev pub Pushed : Array ℕ → (sp : ℕ) → (vs us : List ℕ) → Array ℕ × ℕ → Type 0
Pushed m sp vs us (m', sp') =
    (sp' + 4 * length vs ≡ sp)
    × Words m' sp' (rev_onto vs us)
    × ((i : ℕ) → (i < sp') ⊎ (sp ≤ i) → m' i ≡ m i)

push_down_step :
    (m : Array ℕ) (sp v : ℕ) (vs us : List ℕ) (r : Array ℕ × ℕ)
    → 4 ≤ sp
    → Pushed (update m (sp - 4) v) (sp - 4) vs (v ∷ us) r
    → Pushed m sp (v ∷ vs) us r
push_down_step m sp v vs us (m', sp') h (e, w, same) =
    (omega arith, w, λ i l. same i (omega arith) ∙ ground arith)

pub push_down_lem :
    (m : Array ℕ) (sp : ℕ) (vs us : List ℕ)
    → 4 * length vs ≤ sp
    → sp < 2 ^ 32
    → Words m sp us
    → Pushed m sp vs us (push_down m sp vs)
unfolding push_down
push_down_lem m sp [] us h k w = (omega arith, w, λ i l. refl)
push_down_lem m sp (v ∷ vs) us h k w =
    rw (push_down, below)
      (push_down_step m sp v vs us (push_down (update m (sp - 4) v) (sp - 4) vs) (omega arith) (
        push_down_lem (update m (sp - 4) v) (sp - 4) vs (v ∷ us) (omega arith) (omega arith)
          (ground arith, rw again (Words-update m (sp - 4) v sp us (omega arith) w))))
  where
    below : (sp + 2 ^ 32 - 4) % 2 ^ 32 ≡ sp - 4
    below = omega arith

    again : sp - 4 + 4 ≡ sp
    again = omega arith

-- `registers_t`
pub record Registers : Type 0 where
  pub gs : ℕ
  pub fs : ℕ
  pub es : ℕ
  pub ds : ℕ
  pub edi : ℕ
  pub esi : ℕ
  pub ebp : ℕ
  pub esp : ℕ
  pub ebx : ℕ
  pub edx : ℕ
  pub ecx : ℕ
  pub eax : ℕ
  pub int_num : ℕ
  pub err_code : ℕ
  pub eip : ℕ
  pub cs : ℕ
  pub eflags : ℕ

-- The words from the stack pointer on, in the order of the pops and of `iret`.
abbrev pub frame_words : Registers → List ℕ
frame_words r =
    r.gs ∷ r.fs ∷ r.es ∷ r.ds ∷ r.edi ∷ r.esi ∷ r.ebp ∷ r.esp ∷ r.ebx ∷ r.edx ∷ r.ecx ∷ r.eax
    ∷ r.int_num ∷ r.err_code ∷ r.eip ∷ r.cs ∷ r.eflags ∷ []

-- The registers with which a kernel thread starts.
abbrev pub kernel_start : (entry : ℕ) → Registers
kernel_start entry = record {
  gs = seg_kdata;
  fs = seg_kdata;
  es = seg_kdata;
  ds = seg_kdata;
  edi = 0;
  esi = 0;
  ebp = 0;
  esp = 0;
  ebx = 0;
  edx = 0;
  ecx = 0;
  eax = 0;
  int_num = 0;
  err_code = 32;
  eip = entry;
  cs = seg_kcode;
  eflags = 0x00200202;
}

-- On a stack of at least 68 bytes that does not reach past 2^32, the thread that `kthread_create`
-- makes is ready and belongs to no process, and its stack pointer lies 68 bytes below the end of the
-- stack. From there on stand the registers of an interrupt that returns to the entry, in the
-- kernel's segments and with interrupts enabled; no other word of memory has changed.
pub init_thread_lem :
    (m : Array ℕ) (base size entry : ℕ)
    → 68 ≤ size
    → base + size < 2 ^ 32
    → (let (t, m') = init_thread m base size entry in
        (t.esp + 68 ≡ base + size)
        × (t.state ≡ ready)
        × (t.process ≡ 0)
        × Words m' t.esp (frame_words (kernel_start entry))
        × ((i : ℕ) → (i < t.esp) ⊎ (base + size ≤ i) → m' i ≡ m i))
unfolding init_thread
init_thread_lem m base size entry h k = rw (end, pushed.0) (refl, refl, refl, pushed.1, pushed.2)
  where
    end : (base + size) % 2 ^ 32 ≡ base + size
    end = omega arith

    pushed :
        Pushed m
          (base + size)
          (kthread_words entry)
          []
          (push_down m (base + size) (kthread_words entry))
    pushed = push_down_lem m (base + size) (kthread_words entry) [] (omega arith) k tt
