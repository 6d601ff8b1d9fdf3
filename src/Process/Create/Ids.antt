-- ===== src/Process/Create/Ids.antt =====
-- The numbers of the processes in the list of src/userspace/uprocess.c.
use frog_kernel.Base.{
  ℕ, ◌+◌, ◌%◌, ◌^◌, ◌<◌, ◌≤◌, ◌≡◌, ◌≢◌, refl, sym, ◌∙◌, ap, Bool-cases, inl, inr, some, ◌==◌, ◌⊎◌,
  if◌then◌else◌, List, [], ◌∷◌, length, arith,
}
use frog_kernel.Process.{Processes, process_list_add, set_next, uprocess_find, uprocess_remove}
use frog_kernel.Process.Listed.{
  Chain-other, Absent, Lists, by_pid, without_pid, uprocess_find_lem, process_list_add-Lists,
}
use frog_kernel.Process.Removed.{uprocess_remove_lem}
use frog_kernel.Process.Create.{new_process, enlist}

-- No process of a list has the number.
abbrev pub Unused : Processes → (pid : ℕ) → List ℕ → Type 0
Unused s pid [] = Unit
Unused s pid (p ∷ ps) = ((s.procs p).pid ≢ pid) × Unused s pid ps

-- The numbers are distinct, positive and below `next_pid`.
abbrev pub Numbered : Processes → List ℕ → Type 0
Numbered s [] = Unit
Numbered s (p ∷ ps) =
    (1 ≤ (s.procs p).pid)
    × ((s.procs p).pid < s.next_pid)
    × Unused s (s.procs p).pid ps
    × Numbered s ps

pub record IsTable (s : Processes) (ps : List ℕ) : Type 0 where
  pub lists : Lists s ps
  pub numbered : Numbered s ps
  pub next_pid : 1 ≤ s.next_pid

-- Numbers are kept if no process of the list is renumbered and `next_pid` does not fall.
module _ (s s' : Processes) where
  Unused-kept :
      (pid : ℕ) (ps : List ℕ) (u : ℕ)
      → ((q : ℕ) → q ≢ u → (s'.procs q).pid ≡ (s.procs q).pid)
      → Absent u ps
      → Unused s pid ps
      → Unused s' pid ps
  Unused-kept pid [] u same a n = tt
  Unused-kept pid (p ∷ ps) u same (ne, a) (np, n) =
      (λ e. np (sym (same p ne) ∙ e), Unused-kept pid ps u same a n)

  Numbered-kept :
      (ps : List ℕ) (u : ℕ)
      → ((q : ℕ) → q ≢ u → (s'.procs q).pid ≡ (s.procs q).pid)
      → s.next_pid ≤ s'.next_pid
      → Absent u ps
      → Numbered s ps
      → Numbered s' ps
  Numbered-kept [] u same le a n = tt
  Numbered-kept (p ∷ ps) u same le (ne, a) (lo, hi, un, n) = (
    omega (arith, same p ne),
    omega (arith, same p ne),
    rw (same p ne) (Unused-kept (s.procs p).pid ps u same a un),
    Numbered-kept ps u same le a n,
  )

Unused-below :
    (s : Processes) (pid : ℕ) (ps : List ℕ) → s.next_pid ≤ pid → Numbered s ps → Unused s pid ps
Unused-below s pid [] h n = tt
Unused-below s pid (p ∷ ps) h (lo, hi, un, n) = (λ e. omega arith, Unused-below s pid ps h n)

Unused-without_pid :
    (s : Processes) (pid u : ℕ) (ps : List ℕ) → Unused s u ps → Unused s u (without_pid s pid ps)
unfolding without_pid
Unused-without_pid s pid u [] n = n
Unused-without_pid s pid u (p ∷ ps) (ne, n) = elim (Bool-cases ((s.procs p).pid == pid)) [
  | inl hit ↦ rw hit n
  | inr other ↦ rw other (ne, Unused-without_pid s pid u ps n)
]

Numbered-without_pid :
    (s : Processes) (pid : ℕ) (ps : List ℕ) → Numbered s ps → Numbered s (without_pid s pid ps)
unfolding without_pid
Numbered-without_pid s pid [] n = n
Numbered-without_pid s pid (p ∷ ps) (lo, hi, un, n) = elim (Bool-cases ((s.procs p).pid == pid)) [
  | inl hit ↦ rw hit n
  | inr other ↦
      rw other
        (lo, hi, Unused-without_pid s pid (s.procs p).pid ps un, Numbered-without_pid s pid ps n)
]

-- But for the links, the processes are the same, so the numbers are.
module _ (s s' : Processes)
    (same : (u : ℕ) → set_next (s'.procs u) 0 ≡ set_next (s.procs u) 0) where
  pid_same : (u : ℕ) → (s'.procs u).pid ≡ (s.procs u).pid
  pid_same u = ap (λ p. p.pid) (same u)

  Unused-same : (pid : ℕ) (ps : List ℕ) → Unused s pid ps → Unused s' pid ps
  Unused-same pid [] n = tt
  Unused-same pid (p ∷ ps) (ne, n) = (λ e. ne (sym (pid_same p) ∙ e), Unused-same pid ps n)

  Numbered-same : (ps : List ℕ) → s'.next_pid ≡ s.next_pid → Numbered s ps → Numbered s' ps
  Numbered-same [] e n = tt
  Numbered-same (p ∷ ps) e (lo, hi, un, n) = (
    omega (arith, pid_same p),
    omega (arith, pid_same p, e),
    rw (pid_same p) (Unused-same (s.procs p).pid ps un),
    Numbered-same ps e n,
  )

abbrev pub In : ℕ → List ℕ → Type 0
In p [] = ⊥
In p (q ∷ qs) = (q ≡ p) ⊎ In p qs

Unused-ne :
    (s : Processes) (pid : ℕ) (ps : List ℕ) (p : ℕ)
    → Unused s pid ps
    → In p ps
    → (s.procs p).pid ≢ pid
Unused-ne s pid [] p un m = absurd m
Unused-ne s pid (q ∷ qs) p (ne, un) (inl e) = λ z. ne (ap (λ r. (s.procs r).pid) e ∙ z)
Unused-ne s pid (q ∷ qs) p (ne, un) (inr m) = Unused-ne s pid qs p un m

-- The first process with a number that occurs in a numbered list is the one that has it.
by_pid-pid :
    (s : Processes) (ps : List ℕ) (p : ℕ)
    → Numbered s ps
    → In p ps
    → by_pid s (s.procs p).pid ps ≡ p
unfolding by_pid
by_pid-pid s [] p n m = absurd m
by_pid-pid s (q ∷ qs) p (lo, hi, un, n) (inl e) = ground (arith, e)
by_pid-pid s (q ∷ qs) p (lo, hi, un, n) (inr m) =
    ground (arith, Unused-ne s (s.procs q).pid qs p un m, by_pid-pid s qs p n m)

-- `uprocess_find` finds each process of a well-formed table by its number, within a round for each
-- process of the list and one more.
pub uprocess_find-pid :
    (fuel : ℕ) (s : Processes) (ps : List ℕ) (p : ℕ)
    → IsTable s ps
    → In p ps
    → length ps < fuel
    → uprocess_find fuel s (s.procs p).pid ≡ some p
uprocess_find-pid fuel s ps p t m h =
    uprocess_find_lem fuel s (s.procs p).pid ps t.lists h ∙ ap some (by_pid-pid s ps p t.numbered m)

-- `uprocess_remove` keeps the table well-formed.
pub uprocess_remove-IsTable :
    (fuel : ℕ) (s : Processes) (pid : ℕ) (ps : List ℕ)
    → IsTable s ps
    → length ps < fuel
    → (s' : Processes) × (uprocess_remove fuel s pid ≡ some s') × IsTable s' (without_pid s pid ps)
uprocess_remove-IsTable fuel s pid ps t h =
    let (s', e, l, same, next) = uprocess_remove_lem fuel s pid ps t.lists h in
    (
      s',
      e,
      record {
        lists = l;
        numbered =
            Numbered-same s s' same (without_pid s pid ps) next
              (Numbered-without_pid s pid ps t.numbered);
        next_pid = omega (arith, next, t.next_pid);
      },
    )

module _ (s : Processes) (p thread entry page_dir heap_start : ℕ) where
  new_process-Lists :
      (ps : List ℕ)
      → Lists s ps
      → Absent p ps
      → Lists (new_process s p thread entry page_dir heap_start) ps
  unfolding new_process
  new_process-Lists ps l a = record {
    chain =
        Chain-other s (new_process s p thread entry page_dir heap_start) p s.process_list ps
          (λ q ne. ground (arith, ne)) a l.chain;
    distinct = l.distinct;
  }

  enlist_pid :
      (q : ℕ)
      → ((enlist s p thread entry page_dir heap_start).procs q).pid
        ≡ (if q == p then s.next_pid else (s.procs q).pid)
  unfolding enlist process_list_add
  enlist_pid q = ground arith

  enlist_next_pid :
      (enlist s p thread entry page_dir heap_start).next_pid ≡ (s.next_pid + 1) % 2 ^ 32
  unfolding enlist process_list_add
  enlist_next_pid = refl

-- If no number has come round yet, a new process outside the list of a well-formed table takes the
-- next number, the one after it is the next from then on, and the table stays well-formed: the list,
-- with the new process in front, holds each process once, and the numbers in it are distinct and
-- below the next one.
pub enlist-IsTable :
    (s : Processes) (ps : List ℕ) (p thread entry page_dir heap_start : ℕ)
    → IsTable s ps
    → p ≢ 0
    → Absent p ps
    → s.next_pid + 1 < 2 ^ 32
    → (let s' = enlist s p thread entry page_dir heap_start in
        IsTable s' (p ∷ ps) × ((s'.procs p).pid ≡ s.next_pid) × (s'.next_pid ≡ s.next_pid + 1))
unfolding enlist
enlist-IsTable s ps p thread entry page_dir heap_start t nz a small = (
  record {
    lists =
        process_list_add-Lists (new_process s p thread entry page_dir heap_start) p ps
          (new_process-Lists s p thread entry page_dir heap_start ps t.lists a) nz a;
    numbered = (
      omega (arith, own, t.next_pid),
      omega (arith, own, next, small),
      rw own (
          Unused-kept s s' s.next_pid ps p other a
            (Unused-below s s.next_pid ps (omega arith) t.numbered)),
      Numbered-kept s s' ps p other (omega (arith, next, small)) a t.numbered,
    );
    next_pid = omega (arith, next, small);
  },
  own,
  omega (arith, next, small),
)
  where
    s' : Processes
    s' = enlist s p thread entry page_dir heap_start

    own : (s'.procs p).pid ≡ s.next_pid
    own = enlist_pid s p thread entry page_dir heap_start p ∙ ground arith

    next : s'.next_pid ≡ (s.next_pid + 1) % 2 ^ 32
    next = enlist_next_pid s p thread entry page_dir heap_start

    other : (q : ℕ) → q ≢ p → (s'.procs q).pid ≡ (s.procs q).pid
    other q ne = enlist_pid s p thread entry page_dir heap_start q ∙ ground (arith, ne)
