-- ===== src/Idt.antt =====
-- Interrupts, src/idt/isr.c and idt.c: the tables of handlers, the choice of one, and the gates.
-- What an exception other than a system call prints before it panics is left out.
pub mod Gates
use frog_kernel.Base.{
  ℕ, ◌+◌, ◌-◌, ◌/◌, ◌%◌, ◌^◌, Option, none, some, List, [], ◌∷◌, ◌++◌, leb, ◌==◌, if◌then◌else◌,
}
use frog_kernel.Base.Store.{Array, update, Outcome, ok, panic}

-- `irq_handlers` and `syscall_handlers`, NULL where there is none.
pub record Handlers (H : Type 0) : Type 0 where
  pub irqs : Array (Option H)
  pub syscalls : Array (Option H)

-- A byte and the port that it is written to.
abbrev pub Out : Type 0
Out = ℕ × ℕ

module _ {H : Type 0} where
  unfoldable pub irq_register : Handlers H → (irq : ℕ) → H → Handlers H
  irq_register t irq h = record t { irqs = update t.irqs irq (some h) }

  unfoldable pub syscall_register : Handlers H → (num : ℕ) → H → Handlers H
  syscall_register t num h = record t { syscalls = update t.syscalls num (some h) }

  -- The handler that `exception_handler` calls for an interrupt and EAX; any interrupt but 0x80 ends
  -- in a panic.
  unfoldable pub exception_handler : Handlers H → (int_num eax : ℕ) → Outcome (Option H)
  exception_handler t int_num eax = if int_num == 0x80 then ok (t.syscalls (eax % 0x100)) else panic

  -- The handler that `irq_handler` calls, and what it then tells the interrupt controllers.
  unfoldable pub irq_handler : Handlers H → (int_num : ℕ) → Option H × List Out
  irq_handler t int_num = (
    t.irqs ((int_num + 2 ^ 32 - 32) % 0x100),
    (if leb 40 int_num then (0x20, 0xa0) ∷ [] else []) ++ (0x20, 0x20) ∷ [],
  )

-- `idt_entry_t`
pub record Gate : Type 0 where
  pub base_low : ℕ
  pub selector : ℕ
  pub reserved : ℕ
  pub flags : ℕ
  pub base_high : ℕ

unfoldable pub idt_set_entry : Array Gate → (num base selector flags : ℕ) → Array Gate
idt_set_entry idt num base selector flags = update idt num (record {
  base_low = base % 0x10000;
  selector = selector;
  reserved = 0;
  flags = flags;
  base_high = base / 0x10000 % 0x10000;
})

abbrev pub no_gate : Gate
no_gate = record { base_low = 0; selector = 0; reserved = 0; flags = 0; base_high = 0 }

-- The gates of a run of interrupts, `stub n` being the address of the routine of interrupt n.
unfoldable pub set_gates : Array Gate → (stub : ℕ → ℕ) → (first : ℕ) → List ℕ → Array Gate
unfolding idt_set_entry
set_gates idt stub first [] = idt
set_gates idt stub first (n ∷ ns) =
    set_gates (idt_set_entry idt (first + n) (stub (first + n)) 0x08 0x8e) stub first ns

abbrev pub exceptions : List ℕ
exceptions =
    0 ∷ 1 ∷ 2 ∷ 3 ∷ 4 ∷ 5 ∷ 6 ∷ 7 ∷ 8 ∷ 9 ∷ 10 ∷ 11 ∷ 12 ∷ 13 ∷ 14 ∷ 15 ∷ 16 ∷ 17 ∷ 18 ∷ 19 ∷ []

abbrev pub irqs : List ℕ
irqs = 0 ∷ 1 ∷ 2 ∷ 3 ∷ 4 ∷ 5 ∷ 6 ∷ 7 ∷ 8 ∷ 9 ∷ 10 ∷ 11 ∷ 12 ∷ 13 ∷ 14 ∷ 15 ∷ []

-- What `pic_remap` writes to the interrupt controllers.
abbrev pub pic_remap : List Out
pic_remap =
    (0x11, 0x20)
    ∷ (0x11, 0xa0)
    ∷ (0x20, 0x21)
    ∷ (0x28, 0xa1)
    ∷ (0x04, 0x21)
    ∷ (0x02, 0xa1)
    ∷ (0x01, 0x21)
    ∷ (0x01, 0xa1)
    ∷ (0x00, 0x21)
    ∷ (0x00, 0xa1)
    ∷ []

-- The table that `idt_init` fills. `memset` has cleared it.
unfoldable pub idt_init : (stub : ℕ → ℕ) → Array Gate
unfolding set_gates
idt_init stub =
    idt_set_entry (set_gates (set_gates (λ n. no_gate) stub 0 exceptions) stub 32 irqs) 0x80
      (stub 0x80) 0x08 0xee
