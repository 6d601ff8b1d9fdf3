-- ===== src/Syscall/Tests.antt =====
-- A process at 200 with two children, at 100 and 101, of which 100 is dead in the second state.
use mathlib.Core.Path.{subst}
use frog_kernel.Base.{
  ℕ, ◌+◌, ◌-◌, ◌%◌, ◌^◌, ◌<◌, ◌≤◌, ◌≡◌, ◌≢◌, ◌⊎◌, ◌↔◌, refl, sym, inl, inr, true, none, some,
  Bool-cases, [], ◌∷◌, arith, min, if◌then◌else◌, ◌==◌,
}
use frog_kernel.Base.Int.{ℤ, pos}
use frog_kernel.Base.Store.{panic, ok}
use frog_kernel.Misc.Util.{kernel_virt_base}
use frog_kernel.Vfs.{Drivers, Vfs, get_file, minus_one, vfs_resolve}
use frog_kernel.Vfs.Files.{Moves}
use frog_kernel.Vfs.Open.{Opens}
use frog_kernel.Thread
use frog_kernel.Thread.{Thread, Scheduler}
use frog_kernel.Process.{Process, Processes, running, dead, State, find_from, uprocess_find}
use frog_kernel.Idt.{exception_handler}
use frog_kernel.Syscall.{
  Regs, Memory, Kernel, val_ptr, sys_open, sys_read, answer, failed, vfs_now, to_int,
}
use frog_kernel.Syscall.Pointers.{val_ptr_lem}
use frog_kernel.Syscall.Files.{sys_open_lem, sys_read_lem}
use frog_kernel.Syscall.Life.{asleep, sys_exit, sys_wait, wait_for, fall_asleep}
use frog_kernel.Syscall.Life.Wake.{sys_exit-sys_wait}
use frog_kernel.Syscall.Life.Steps.{
  at_user, halted, System, exits, done, step, Fits, IsCoherent, state_of, now_at,
}
use frog_kernel.Syscall.Life.Steps.Dead.{dead-Steps}
use frog_kernel.Syscall.Table.{userspace_init, empty, nth_call, exception_handler_lem}

-- A range that passes the check and covers the kernel.
abbrev start : ℕ
start = 0x1000

abbrev huge : ℕ
huge = 0xfffff000

val_ptr_lem_example : (val_ptr start huge ≡ true) ↔ (
    (start ≢ 0)
    × (start < kernel_virt_base)
    × ((start + huge < kernel_virt_base)
        ⊎ ((2 ^ 32 ≤ start + huge) × (start + huge < 2 ^ 32 + kernel_virt_base))))
val_ptr_lem_example = val_ptr_lem start huge (omega arith) (omega arith)

-- Where a read goes, and two children.
abbrev buffer : ℕ
buffer = 0x2000

abbrev child : ℕ
child = 100

abbrev sibling : ℕ
sibling = 101

abbrev drivers : Drivers ℕ
drivers = record {
  flags = λ w node. if node == 1 then 2 else 1;
  mounted_here = λ w node. 0;
  mount_of = λ w node. none;
  open_op = λ w node. none;
  close_op = λ w node. none;
  read_op = λ w node.
      if node == 2 then some (λ buf len offset w. (pos (min len (10 - offset)), w)) else none;
  write_op = λ w node. none;
  readdir_op = λ w node. none;
  finddir_op = λ w node. if node == 1 then some (λ name w. (2, w)) else none;
  ioctl_op = λ w node. none;
  stat_op = λ w node. none;
  mount = λ driver w. (pos 0, w);
  get_root = λ driver w. (1, w);
  unmount = λ driver. none;
  clear_mounted_here = λ node w. w;
  kmalloc = λ n w. (w, w + n);
  kfree = λ p w. w;
}

-- "/a" lies at 0x1000.
abbrev memory : Memory ℕ
memory = record {
  load = λ w a. if a == 0x1000 then b'/' else if a == 0x1001 then b'a' else 0;
  save = λ a x w. w;
}

abbrev regs : (ebx ecx edx : ℕ) → Regs
regs b c d = record { eax = 0; ebx = b; ecx = c; edx = d; ebp = 0 }

abbrev process : (pid parent next : ℕ) → State → Process
process n q p st = record {
  pid = n;
  page_dir = 0;
  entry = 0;
  thread = n;
  state = st;
  parent = q;
  next = p;
  exit_code = 7;
  heap_start = 0;
  heap_end = 0;
}

abbrev processes : State → Processes
processes st = record {
  procs = λ p.
      if p == 100
      then process 1 200 0 st
      else if p == 101
      then process 2 200 100 running
      else process 3 0 101 running;
  process_list = 200;
  next_pid = 4;
}

abbrev scheduler : (curr_process : ℕ) → Scheduler
scheduler p = record {
  threads = λ t. record {
    esp = 0;
    stack_base = 0;
    stack_size = 0;
    state = Thread.ready;
    process = 0;
    next = t;
  };
  head = 1;
  curr = 1;
  idle = 9;
  curr_process = p;
  kernel_stack = 0;
  page_dir = λ q. 0;
  cr3 = 0;
}

abbrev kernel : State → Kernel ℕ
kernel st = record {
  vfs = record {
    world = 0xd0000000;
    mount_table = λ i. record { path = b'/' ∷ []; driver = 1; root = 1 };
    mount_count = 1;
    tables = λ t fd. if t == 200 then (if fd == 0 then 0xd0001000 else 0) else 0;
    files = λ f. record { vnode = 2; offset = 4; flags = 0; ref_count = 1 };
    curr_process = 0;
  };
  processes = processes st;
  scheduler = scheduler 200;
  schedule_pending = 0;
  curr_time = record { seconds = 0; minutes = 0; hours = 0; day = 1; month = 1; year = 2026 };
}

sys_open_lem_example :
    (q : ℕ × ℕ) × (vfs_resolve drivers (vfs_now (kernel running)) (b'/' ∷ b'a' ∷ []) ≡ some q)
    × ((a : ℤ × Vfs ℕ) × (sys_open drivers memory 3 (regs 0x1000 0 0) (kernel running)
          ≡ some (answer (regs 0x1000 0 0) (kernel running) a))
        × Opens drivers (vfs_now (kernel running)) 0 q a)
sys_open_lem_example =
    sys_open_lem drivers memory 3 (regs 0x1000 0 0) (kernel running) (b'/' ∷ b'a' ∷ [])
      (refl, (λ e. omega arith), (refl, (λ e. omega arith), refl)) (λ e. omega arith) (omega arith)
      (omega arith) (omega arith)

-- Descriptor 0 and a buffer at 0x2000.
sys_read_lem_example :
    ((buffer ≡ 0) ⊎ (kernel_virt_base ≤ buffer + 100))
      × (sys_read drivers memory (regs 0 buffer 100) (kernel running)
          ≡ failed (regs 0 buffer 100) (kernel running))
    ⊎ ((buffer ≢ 0)
        × (buffer + 100 < kernel_virt_base)
        × ((q : ℤ × Vfs ℕ) × (sys_read drivers memory (regs 0 buffer 100) (kernel running)
              ≡ answer (regs 0 buffer 100) (kernel running) q)
            × ((get_file (vfs_now (kernel running)) (to_int 0) ≡ 0)
                  × (q ≡ (minus_one, vfs_now (kernel running)))
                ⊎ Moves drivers
                    (vfs_now (kernel running))
                    (get_file (vfs_now (kernel running)) (to_int 0))
                    buffer
                    100
                    (drivers.read_op 0xd0000000
                      ((kernel running).vfs.files
                        (get_file (vfs_now (kernel running)) (to_int 0))).vnode)
                    q)))
sys_read_lem_example =
    sys_read_lem drivers memory (regs 0 buffer 100) (kernel running) (omega arith)

-- Process 200 waits for the child with number 1.
sleeps :
    sys_wait drivers memory 4 (regs 1 0 0) (kernel running)
    ≡ some (asleep child (fall_asleep (kernel running)))
unfolding sys_wait uprocess_find find_from wait_for
sleeps = refl

-- Then the other child exits with 5.
sys_exit-sys_wait_example :
    (let after =
        sys_exit
          (regs 5 0 0)
          (record (fall_asleep (kernel running)) { scheduler = scheduler sibling }) in
      ((after.processes.procs 200).state ≡ running)
      × ((after.scheduler.threads 3).state ≡ Thread.ready)
      × (sibling ≡ child
          → ((after.processes.procs child).state ≡ dead)
            × ((after.processes.procs child).exit_code ≡ 5))
      × (sibling ≢ child
          → (after.processes.procs child ≡ (kernel running).processes.procs child)
            × ((after.processes.procs child).state ≢ dead)))
sys_exit-sys_wait_example =
    sys_exit-sys_wait drivers memory 4 (regs 1 0 0) (regs 5 0 0) (kernel running)
      (fall_asleep (kernel running)) child (scheduler sibling) sleeps (λ e. omega arith)
      (λ e. omega arith) (λ e. omega arith) refl

-- Process 100 is dead, and 200 exits.
abbrev system : System ℕ
system = record { kernel = kernel dead; activity = λ p. if p == 100 then halted else at_user }

abbrev later : System ℕ
later = record {
  kernel = sys_exit (regs 0 0 0) (kernel dead);
  activity = now_at system.activity 200 halted;
}

one_dead : (p : ℕ) → state_of system p ≡ (if p == child then dead else running)
one_dead p = ground arith

system-IsCoherent : IsCoherent system
system-IsCoherent p np = elim (Bool-cases (p == child)) [
  | inl gone ↦ subst (λ st. Fits st (system.activity p)) (sym (one_dead p)) (rw gone refl)
  | inr here ↦
      subst (λ st. Fits st (system.activity p)) (sym (one_dead p))
        (rw here (λ e. absurd (ground (arith, e))))
]

dead-Steps_example :
    IsCoherent later
    × (state_of later 100 ≡ dead)
    × ((later.kernel.processes.procs 100).exit_code ≡ 7)
dead-Steps_example =
    dead-Steps drivers memory 4 system later 100
      (step system later later (exits system (regs 0 0 0) (λ e. omega arith) refl) (done later))
      (λ e. omega arith) system-IsCoherent refl

exception_handler_lem_example :
    exception_handler (userspace_init empty) 0x80 4
    ≡ (if 0x80 == 0x80 then ok (nth_call (4 % 0x100)) else panic)
exception_handler_lem_example = exception_handler_lem 0x80 4
