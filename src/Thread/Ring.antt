-- ===== src/Thread/Ring.antt =====
-- The ring of threads of src/thread/kthread.c: who is added where, and who runs next.
use frog_kernel.Base.{
  ℕ, zero, suc, ◌<◌, ◌≡◌, ◌≢◌, refl, sym, false, some, ◌==◌, if◌then◌else◌, List, [], ◌∷◌, ◌++◌,
  length, arith,
}
use frog_kernel.Thread.{
  Scheduler, find_tail, link_behind, scheduler_add, runnable, scan, scheduler_next,
}

-- From `t` the links lead through the threads of a list, none of them `stop`, and then to `stop`.
abbrev pub Chain : Scheduler → (stop t : ℕ) → List ℕ → Type 0
Chain s stop t [] = (s.threads t).next ≡ stop
Chain s stop t (u ∷ us) = ((s.threads t).next ≡ u) × (u ≢ stop) × Chain s stop u us

-- The first thread of a list that can run, or the idle thread.
unfoldable pub first_runnable : Scheduler → List ℕ → ℕ
first_runnable s [] = s.idle
first_runnable s (t ∷ ts) =
    let rest = first_runnable s ts in if runnable (s.threads t).state then t else rest

scan_lem :
    (s : Scheduler) (stop fuel t : ℕ) (us : List ℕ)
    → Chain s stop t us
    → length us < fuel
    → scan s stop fuel t ≡ some (first_runnable s (t ∷ us))
unfolding scan first_runnable
scan_lem s stop zero t us c h = absurd (omega arith)
scan_lem s stop (suc f) t [] c h = ground (arith, c)
scan_lem s stop (suc f) t (u ∷ us) (e, ne, c) h =
    ground (arith, e, ne, scan_lem s stop f u us c (omega arith))

-- If a thread runs, and the links lead from the one behind it round the ring, then `scheduler_next`
-- ends within as many rounds as the ring has threads. It chooses the first thread behind the current
-- one that is ready or running, so the current one last, and the idle thread if there is none.
pub scheduler_next_lem :
    (fuel : ℕ) (s : Scheduler) (us : List ℕ)
    → s.curr ≢ 0
    → Chain s (s.threads s.curr).next (s.threads s.curr).next us
    → length us < fuel
    → scheduler_next fuel s ≡ some (first_runnable s ((s.threads s.curr).next ∷ us))
unfolding scheduler_next
scheduler_next_lem fuel s us h c lt =
    rw running_one (scan_lem s (s.threads s.curr).next fuel (s.threads s.curr).next us c lt)
  where
    running_one : (s.curr == 0) ≡ false
    running_one = ground (arith, h)

abbrev pub last : ℕ → List ℕ → ℕ
last t [] = t
last t (u ∷ us) = last u us

find_tail_lem :
    (s : Scheduler) (fuel t : ℕ) (us : List ℕ)
    → Chain s s.head t us
    → length us < fuel
    → (find_tail s fuel t ≡ some (last t us)) × ((s.threads (last t us)).next ≡ s.head)
unfolding find_tail
find_tail_lem s zero t us c h = absurd (omega arith)
find_tail_lem s (suc f) t [] c h = (ground (arith, c), c)
find_tail_lem s (suc f) t (u ∷ us) (e, ne, c) h =
    let (g, n) = find_tail_lem s f u us c (omega arith) in (ground (arith, e, ne, g), n)

-- A thread is not in a list.
abbrev pub Absent : ℕ → List ℕ → Type 0
Absent u [] = Unit
Absent u (t ∷ ts) = (t ≢ u) × Absent u ts

link_behind-Chain :
    (s : Scheduler) (tail u t : ℕ) (us : List ℕ)
    → tail ≡ last t us
    → (s.threads tail).next ≡ s.head
    → u ≢ s.head
    → Absent u (t ∷ us)
    → Chain s s.head t us
    → Chain (link_behind s tail u) s.head t (us ++ u ∷ [])
unfolding link_behind
link_behind-Chain s tail u t [] e n hu (ne, a) c =
    (ground (arith, e, ne), hu, ground (arith, e, ne))
link_behind-Chain s tail u t (v ∷ us) e n hu (ne, a) (f, nv, c) =
    (ground (arith, e, ne, f, nv, n), nv, link_behind-Chain s tail u v us e n hu a c)

link_behind-head : (s : Scheduler) (tail u : ℕ) → (link_behind s tail u).head ≡ s.head
unfolding link_behind
link_behind-head s tail u = refl

-- A thread that is not in the ring is added behind its last thread, where the head follows it:
-- `scheduler_add` ends within as many rounds as the ring has threads, and the links then lead
-- through the same threads and the new one.
pub scheduler_add_lem :
    (fuel : ℕ) (s : Scheduler) (u : ℕ) (us : List ℕ)
    → s.head ≢ 0
    → Chain s s.head s.head us
    → Absent u (s.head ∷ us)
    → length us < fuel
    → (s' : Scheduler) × (scheduler_add fuel s u ≡ some s')
      × (s'.head ≡ s.head)
      × Chain s' s.head s.head (us ++ u ∷ [])
unfolding scheduler_add
scheduler_add_lem fuel s u us h c (ne, a) lt =
    let (e, n) = find_tail_lem s fuel s.head us c lt in
    (
      link_behind s (last s.head us) u,
      rw (has_head, e) refl,
      link_behind-head s (last s.head us) u,
      link_behind-Chain s (last s.head us) u s.head us refl n (λ q. ne (sym q)) (ne, a) c,
    )
  where
    has_head : (s.head == 0) ≡ false
    has_head = ground (arith, h)
