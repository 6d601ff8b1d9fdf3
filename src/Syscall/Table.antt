-- ===== src/Syscall/Table.antt =====
-- Which handler a system call reaches: `userspace_init` of src/userspace/usyscall.c and the choice in
-- `exception_handler` of src/idt/isr.c.
use frog_kernel.Base.{
  ℕ, zero, suc, ◌-◌, ◌%◌, ◌≡◌, refl, Option, none, List, [], ◌∷◌, get_elem?, ◌==◌, if◌then◌else◌,
  arith,
}
use frog_kernel.Base.Store.{ok, panic}
use frog_kernel.Idt.{Handlers, syscall_register, exception_handler}

-- The handlers.
pub data Call : Type 0 where
  sys_exit : Call
  sys_open : Call
  sys_close : Call
  sys_read : Call
  sys_write : Call
  sys_ioctl : Call
  sys_readdir : Call
  sys_fstat : Call
  sys_time : Call
  sys_spawn : Call
  sys_wait : Call
  sys_getpid : Call
  sys_getppid : Call

unfoldable pub userspace_init : Handlers Call → Handlers Call
unfolding syscall_register
userspace_init t0 =
    let t1 = syscall_register t0 1 sys_exit in
    let t2 = syscall_register t1 2 sys_open in
    let t3 = syscall_register t2 3 sys_close in
    let t4 = syscall_register t3 4 sys_read in
    let t5 = syscall_register t4 5 sys_write in
    let t6 = syscall_register t5 6 sys_ioctl in
    let t7 = syscall_register t6 7 sys_readdir in
    let t8 = syscall_register t7 8 sys_fstat in
    let t9 = syscall_register t8 9 sys_time in
    let t10 = syscall_register t9 10 sys_spawn in
    let t11 = syscall_register t10 11 sys_wait in
    let t12 = syscall_register t11 12 sys_getpid in syscall_register t12 13 sys_getppid

-- The calls in the order of their numbers, which begin at 1.
abbrev pub numbered : List Call
numbered =
    sys_exit ∷ sys_open ∷ sys_close ∷ sys_read ∷ sys_write ∷ sys_ioctl ∷ sys_readdir ∷ sys_fstat
    ∷ sys_time ∷ sys_spawn ∷ sys_wait ∷ sys_getpid ∷ sys_getppid ∷ []

abbrev pub nth_call : ℕ → Option Call
nth_call n = if n == 0 then none else get_elem? numbered (n - 1)

abbrev pub empty : Handlers Call
empty = record { irqs = λ n. none; syscalls = λ n. none }

table_lem : (n : ℕ) → (userspace_init empty).syscalls n ≡ nth_call n
unfolding userspace_init
table_lem zero = refl
table_lem (suc zero) = refl
table_lem (suc (suc zero)) = refl
table_lem (suc (suc (suc zero))) = refl
table_lem (suc (suc (suc (suc zero)))) = refl
table_lem (suc (suc (suc (suc (suc zero))))) = refl
table_lem (suc (suc (suc (suc (suc (suc zero)))))) = refl
table_lem (suc (suc (suc (suc (suc (suc (suc zero))))))) = refl
table_lem (suc (suc (suc (suc (suc (suc (suc (suc zero)))))))) = refl
table_lem (suc (suc (suc (suc (suc (suc (suc (suc (suc zero))))))))) = refl
table_lem (suc (suc (suc (suc (suc (suc (suc (suc (suc (suc zero)))))))))) = refl
table_lem (suc (suc (suc (suc (suc (suc (suc (suc (suc (suc (suc zero))))))))))) = refl
table_lem (suc (suc (suc (suc (suc (suc (suc (suc (suc (suc (suc (suc zero)))))))))))) = refl
table_lem (suc (suc (suc (suc (suc (suc (suc (suc (suc (suc (suc (suc (suc zero))))))))))))) = refl
table_lem (suc (suc (suc (suc (suc (suc (suc (suc (suc (suc (suc (suc (suc (suc n)))))))))))))) =
    ground arith

-- After `userspace_init`, the low byte of EAX alone chooses the handler of a system call, 0x80: the
-- numbers 1 to 13 stand for the thirteen handlers in their order, and no other number has one. Every
-- other interrupt that `exception_handler` gets ends in a panic.
pub exception_handler_lem :
    (int_num eax : ℕ)
    → exception_handler (userspace_init empty) int_num eax
      ≡ (if int_num == 0x80 then ok (nth_call (eax % 0x100)) else panic)
unfolding exception_handler
exception_handler_lem int_num eax = rw (table_lem (eax % 0x100)) refl
