-- ===== src/Process/Listed.antt =====
-- The list of processes of src/userspace/uprocess.c as a sequence of addresses.

use frog_kernel.Base.{
  ℕ, zero, suc, ◌<◌, ◌≡◌, ◌≢◌, refl, some, ◌==◌, if◌then◌else◌, List, [], ◌∷◌, length, arith,
}
use frog_kernel.Process.{Processes, process_list_add, find_from, uprocess_find}

-- From `p` the links lead through the processes of a list, none of them NULL, and end.
abbrev pub Chain : Processes → (p : ℕ) → List ℕ → Type 0
Chain s p [] = p ≡ 0
Chain s p (q ∷ qs) = (p ≡ q) × (q ≢ 0) × Chain s (s.procs q).next qs

abbrev pub Absent : ℕ → List ℕ → Type 0
Absent u [] = Unit
Absent u (t ∷ ts) = (t ≢ u) × Absent u ts

abbrev pub Distinct : List ℕ → Type 0
Distinct [] = Unit
Distinct (t ∷ ts) = Absent t ts × Distinct ts

-- The list that `process_list` heads holds these processes, each once.
pub record Lists (s : Processes) (ps : List ℕ) : Type 0 where
  pub chain : Chain s s.process_list ps
  pub distinct : Distinct ps

-- The first process of a list with the number, or NULL.
unfoldable pub by_pid : Processes → (pid : ℕ) → List ℕ → ℕ
by_pid s pid [] = 0
by_pid s pid (p ∷ ps) = let rest = by_pid s pid ps in if (s.procs p).pid == pid then p else rest

-- The list without that process.
unfoldable pub without_pid : Processes → (pid : ℕ) → List ℕ → List ℕ
without_pid s pid [] = []
without_pid s pid (p ∷ ps) =
    let rest = without_pid s pid ps in if (s.procs p).pid == pid then ps else p ∷ rest

find_from_lem :
    (s : Processes) (pid fuel p : ℕ) (ps : List ℕ)
    → Chain s p ps
    → length ps < fuel
    → find_from s pid fuel p ≡ some (by_pid s pid ps)
unfolding find_from by_pid
find_from_lem s pid zero p ps c h = absurd (omega arith)
find_from_lem s pid (suc f) p [] c h = ground (arith, c)
find_from_lem s pid (suc f) p (q ∷ qs) (e, ne, c) h =
    ground (arith, e, ne, find_from_lem s pid f (s.procs q).next qs c (omega arith))

-- `uprocess_find` ends within a round for each process of the list, and one more, and finds the
-- first process of the list that has the number, or NULL if none has it.
pub uprocess_find_lem :
    (fuel : ℕ) (s : Processes) (pid : ℕ) (ps : List ℕ)
    → Lists s ps
    → length ps < fuel
    → uprocess_find fuel s pid ≡ some (by_pid s pid ps)
unfolding uprocess_find
uprocess_find_lem fuel s pid ps l h = find_from_lem s pid fuel s.process_list ps l.chain h

-- A list keeps its links when a process outside it is written.
pub Chain-other :
    (s s' : Processes) (u p : ℕ) (ps : List ℕ)
    → ((q : ℕ) → q ≢ u → s'.procs q ≡ s.procs q)
    → Absent u ps
    → Chain s p ps
    → Chain s' p ps
Chain-other s s' u p [] same a c = c
Chain-other s s' u p (q ∷ qs) same (ne, a) (e, nz, c) =
    (e, nz, Chain-other s s' u _ qs same a (rw (same q ne) c))

process_list_add_links :
    (s : Processes) (p q : ℕ) → q ≢ p → (process_list_add s p).procs q ≡ s.procs q
unfolding process_list_add
process_list_add_links s p q ne = ground (arith, ne)

-- The chain does not depend on the head of the list.
pub Chain-same :
    (s : Processes) (p h : ℕ) (ps : List ℕ)
    → Chain s p ps
    → Chain (record s { process_list = h }) p ps
Chain-same s p h [] c = c
Chain-same s p h (q ∷ qs) (e, nz, c) = (e, nz, Chain-same s (s.procs q).next h qs c)

-- A new process stands in front of the list.
pub process_list_add-Lists :
    (s : Processes) (p : ℕ) (ps : List ℕ)
    → Lists s ps
    → p ≢ 0
    → Absent p ps
    → Lists (process_list_add s p) (p ∷ ps)
unfolding process_list_add
process_list_add-Lists s p ps l nz a = record {
  chain = (
    refl,
    nz,
    rw links (Chain-other s (process_list_add s p) p _ ps (process_list_add_links s p) a l.chain),
  );
  distinct = (a, l.distinct);
}
  where
    links : ((process_list_add s p).procs p).next ≡ s.process_list
    links = ground arith
