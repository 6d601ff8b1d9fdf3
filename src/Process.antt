-- ===== src/Process.antt =====
-- Processes, src/userspace/uprocess.c and uprocess.h: the list of processes and their creation. A
-- process stands at its address, and NULL is 0. Its table of descriptors is `tables` of Vfs.
pub mod Listed
pub mod Removed
pub mod Dir
pub mod Load
pub mod Create
mod Tests
use frog_kernel.Base.{ℕ, zero, suc, ◌+◌, Option, none, some, ◌==◌, if◌then◌else◌}
use frog_kernel.Base.Int.{ℤ}
use frog_kernel.Base.Store.{Array, update}

-- `process_state_t`
pub data State : Type 0 where
  running : State
  dead : State
  waiting : State

-- `process_t`
pub record Process : Type 0 where
  pub pid : ℕ
  pub page_dir : ℕ
  pub entry : ℕ
  pub thread : ℕ
  pub state : State
  pub parent : ℕ
  pub next : ℕ
  pub exit_code : ℕ
  pub heap_start : ℕ
  pub heap_end : ℕ

-- The processes, `process_list` and `next_pid`.
pub record Processes : Type 0 where
  pub procs : Array Process
  pub process_list : ℕ
  pub next_pid : ℕ

abbrev pub set_next : Process → ℕ → Process
set_next p n = record p { next = n }

unfoldable pub process_list_add : Processes → (proc : ℕ) → Processes
process_list_add s proc = record s {
  procs = update s.procs proc (set_next (s.procs proc) s.process_list);
  process_list = proc;
}

-- The loop of `uprocess_find` from `proc` on; the outer `none`: the fuel is used up.
unfoldable pub find_from : Processes → (pid fuel proc : ℕ) → Option ℕ
find_from s pid zero proc = none
find_from s pid (suc f) proc =
    let later = find_from s pid f (s.procs proc).next in
    if proc == 0 then some 0 else if (s.procs proc).pid == pid then some proc else later

unfoldable pub uprocess_find : (fuel : ℕ) → Processes → (pid : ℕ) → Option ℕ
unfolding find_from
uprocess_find fuel s pid = find_from s pid fuel s.process_list

-- `*proc = (*proc)->next`, where `proc` points to `process_list` (`none`) or to the `next` of a
-- process.
unfoldable pub set_link : Processes → (proc : Option ℕ) → (target : ℕ) → Processes
set_link s none target = record s { process_list = target }
set_link s (some p) target = record s { procs = update s.procs p (set_next (s.procs p) target) }

-- The loop of `uprocess_remove`: `at` is `*proc`.
unfoldable pub remove_from :
    Processes → (pid fuel : ℕ) → (proc : Option ℕ) → (at : ℕ) → Option Processes
unfolding set_link
remove_from s pid zero proc at = none
remove_from s pid (suc f) proc at =
    let later = remove_from s pid f (some at) (s.procs at).next in
    if at == 0
    then some s
    else if (s.procs at).pid == pid
    then some (set_link s proc (s.procs at).next)
    else later

unfoldable pub uprocess_remove : (fuel : ℕ) → Processes → (pid : ℕ) → Option Processes
unfolding remove_from
uprocess_remove fuel s pid = remove_from s pid fuel none s.process_list
