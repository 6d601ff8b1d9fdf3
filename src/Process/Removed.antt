-- ===== src/Process/Removed.antt =====
-- `uprocess_remove` of src/userspace/uprocess.c on the list of processes as a sequence.
use mathlib.Core.Option
use frog_kernel.Base.{
  ℕ, zero, suc, ◌<◌, ◌≡◌, ◌≢◌, refl, sym, ◌∙◌, ap, Bool-cases, inl, inr, Option, none, some, ◌==◌,
  if◌then◌else◌, List, [], ◌∷◌, length, arith,
}
use frog_kernel.Process.{Processes, set_link, remove_from, set_next, uprocess_remove}
use frog_kernel.Process.Listed.{
  Chain, Absent, Distinct, Lists, without_pid, Chain-other, Chain-same,
}

-- What the loop of `uprocess_remove` leaves.
unfoldable removed : Processes → (pid : ℕ) → (proc : Option ℕ) → List ℕ → Processes
removed s pid proc [] = s
removed s pid proc (q ∷ qs) =
    let rest = removed s pid (some q) qs in
    if (s.procs q).pid == pid then set_link s proc (s.procs q).next else rest

remove_from_lem :
    (s : Processes) (pid fuel : ℕ) (proc : Option ℕ) (p : ℕ) (ps : List ℕ)
    → Chain s p ps
    → length ps < fuel
    → remove_from s pid fuel proc p ≡ some (removed s pid proc ps)
unfolding remove_from removed
remove_from_lem s pid zero proc p ps c h = absurd (omega arith)
remove_from_lem s pid (suc f) proc p [] c h = ground (arith, c)
remove_from_lem s pid (suc f) proc p (q ∷ qs) (e, ne, c) h =
    ground (arith, e, ne, remove_from_lem s pid f (some q) (s.procs q).next qs c (omega arith))

Absent-without_pid :
    (s : Processes) (pid u : ℕ) (ps : List ℕ) → Absent u ps → Absent u (without_pid s pid ps)
unfolding without_pid
Absent-without_pid s pid u [] a = a
Absent-without_pid s pid u (p ∷ ps) (ne, a) = elim (Bool-cases ((s.procs p).pid == pid)) [
  | inl hit ↦ rw hit a
  | inr other ↦ rw other (ne, Absent-without_pid s pid u ps a)
]

Distinct-without_pid :
    (s : Processes) (pid : ℕ) (ps : List ℕ) → Distinct ps → Distinct (without_pid s pid ps)
unfolding without_pid
Distinct-without_pid s pid [] d = d
Distinct-without_pid s pid (p ∷ ps) (a, d) = elim (Bool-cases ((s.procs p).pid == pid)) [
  | inl hit ↦ rw hit d
  | inr other ↦ rw other (Absent-without_pid s pid p ps a, Distinct-without_pid s pid ps d)
]

-- Behind the process `p`.
removed-other :
    (s : Processes) (pid p u : ℕ) (ps : List ℕ)
    → u ≢ p
    → Absent u ps
    → (removed s pid (some p) ps).procs u ≡ s.procs u
unfolding removed set_link
removed-other s pid p u [] ne a = refl
removed-other s pid p u (q ∷ qs) ne (nq, a) =
    ground (arith, ne, nq, removed-other s pid q u qs (λ e. nq (sym e)) a)

set_link-Chain :
    (s : Processes) (p q : ℕ) (qs : List ℕ)
    → Absent p qs
    → Chain s (s.procs q).next qs
    → (let s' = set_link s (some p) (s.procs q).next in Chain s' (s'.procs p).next qs)
unfolding set_link
set_link-Chain s p q qs a c =
    rw links
      (Chain-other s (set_link s (some p) (s.procs q).next) p _ qs (λ u ne. ground (arith, ne)) a c)
  where
    links : ((set_link s (some p) (s.procs q).next).procs p).next ≡ (s.procs q).next
    links = ground arith

removed-Chain :
    (s : Processes) (pid p : ℕ) (ps : List ℕ)
    → Absent p ps
    → Distinct ps
    → Chain s (s.procs p).next ps
    → (let s' = removed s pid (some p) ps in Chain s' (s'.procs p).next (without_pid s pid ps))
unfolding removed without_pid
removed-Chain s pid p [] a d c = c
removed-Chain s pid p (q ∷ qs) (nq, a) (aq, d) (e, nz, c) =
    elim (Bool-cases ((s.procs q).pid == pid)) [
      | inl hit ↦ rw hit (set_link-Chain s p q qs a c)
      | inr other ↦ rw other (
        ap (λ r. r.next) (removed-other s pid q p qs (λ z. nq (sym z)) a) ∙ e,
        nz,
        removed-Chain s pid q qs aq d c,
      )
    ]

-- But for the links, no process is written.
removed-same :
    (s : Processes) (pid : ℕ) (proc : Option ℕ) (ps : List ℕ) (u : ℕ)
    → set_next ((removed s pid proc ps).procs u) 0 ≡ set_next (s.procs u) 0
unfolding removed set_link
removed-same s pid proc [] u = refl
removed-same s pid none (q ∷ qs) u = ground (arith, removed-same s pid (some q) qs u)
removed-same s pid (some p) (q ∷ qs) u = ground (arith, removed-same s pid (some q) qs u)

removed-list :
    (s : Processes) (pid p : ℕ) (ps : List ℕ)
    → (removed s pid (some p) ps).process_list ≡ s.process_list
unfolding removed set_link
removed-list s pid p [] = refl
removed-list s pid p (q ∷ qs) = ground (arith, removed-list s pid q qs)

-- Whatever the links are, a removal writes nothing but a link.
remove_from-same :
    (s s' : Processes) (pid fuel : ℕ) (proc : Option ℕ) (at u : ℕ)
    → remove_from s pid fuel proc at ≡ some s'
    → set_next (s'.procs u) 0 ≡ set_next (s.procs u) 0
unfolding remove_from set_link
remove_from-same s s' pid zero proc at u e = absurd (Option.none-ne-some s' e)
remove_from-same s s' pid (suc f) none at u e =
    ground (arith, e, remove_from-same s s' pid f (some at) (s.procs at).next u)
remove_from-same s s' pid (suc f) (some p) at u e =
    ground (arith, e, remove_from-same s s' pid f (some at) (s.procs at).next u)

pub uprocess_remove-same :
    (fuel : ℕ) (s s' : Processes) (pid u : ℕ)
    → uprocess_remove fuel s pid ≡ some s'
    → set_next (s'.procs u) 0 ≡ set_next (s.procs u) 0
unfolding uprocess_remove
uprocess_remove-same fuel s s' pid u e = remove_from-same s s' pid fuel none s.process_list u e

removed-next_pid :
    (s : Processes) (pid : ℕ) (proc : Option ℕ) (ps : List ℕ)
    → (removed s pid proc ps).next_pid ≡ s.next_pid
unfolding removed set_link
removed-next_pid s pid proc [] = refl
removed-next_pid s pid none (q ∷ qs) = ground (arith, removed-next_pid s pid (some q) qs)
removed-next_pid s pid (some p) (q ∷ qs) = ground (arith, removed-next_pid s pid (some q) qs)

removed-Lists :
    (s : Processes) (pid : ℕ) (ps : List ℕ)
    → Lists s ps
    → Lists (removed s pid none ps) (without_pid s pid ps)
unfolding removed without_pid set_link
removed-Lists s pid [] l = l
removed-Lists s pid (q ∷ qs) l =
    let (e, nz, c) = l.chain in
    let (aq, d) = l.distinct in
    elim (Bool-cases ((s.procs q).pid == pid)) [
      | inl hit ↦
          rw hit
            (record { chain = Chain-same s (s.procs q).next (s.procs q).next qs c; distinct = d })
      | inr other ↦ rw other (record {
        chain = (removed-list s pid q qs ∙ e, nz, removed-Chain s pid q qs aq d c);
        distinct = (Absent-without_pid s pid q qs aq, Distinct-without_pid s pid qs d);
      })
    ]

-- `uprocess_remove` ends within a round for each process of the list, and one more. It takes the
-- first process with the number out of the list, or nothing if none has it: the others stay in
-- their order, and no process is written but for its link.
pub uprocess_remove_lem :
    (fuel : ℕ) (s : Processes) (pid : ℕ) (ps : List ℕ)
    → Lists s ps
    → length ps < fuel
    → (s' : Processes) × (uprocess_remove fuel s pid ≡ some s')
      × Lists s' (without_pid s pid ps)
      × ((u : ℕ) → set_next (s'.procs u) 0 ≡ set_next (s.procs u) 0)
      × (s'.next_pid ≡ s.next_pid)
unfolding uprocess_remove
uprocess_remove_lem fuel s pid ps l h = (
  removed s pid none ps,
  remove_from_lem s pid fuel none s.process_list ps l.chain h,
  removed-Lists s pid ps l,
  removed-same s pid none ps,
  removed-next_pid s pid none ps,
)
