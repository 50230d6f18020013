-- ===== src/Kernel/Pids.antt =====
-- Process ids: every id that was given out is below the next one, and no two processes share one.
use rust_baremetal.Prelude.{
  ℕ, ◌+◌, ◌<◌, ◌≡◌, ◌≢◌, arith, Bool, false, Option, some, List, [], ◌∷◌, All, All-weaken, set,
}
use rust_baremetal.Prelude.Word.{word_mod}
use rust_baremetal.Hart.{Hart}
use rust_baremetal.Machine.Outcome.{Run, done, panic}
use rust_baremetal.Process.{Process}
use rust_baremetal.Process.Locks.{IsUnlocked}
use rust_baremetal.Kernel.{Kernel, allocproc}
use rust_baremetal.Kernel.Alloc.{
  FirstUnused, here, later, taken, Allocproc, no_slot, slot, no_memory, allocproc-Allocproc,
}

-- The process has no id, or one below `next`.
abbrev pub Below : ℕ → Process → Type 0
Below next p = (n : ℕ) → p.pid ≡ some n → n < next

abbrev pub OtherPid : Process → Process → Type 0
OtherPid p q = (n : ℕ) → p.pid ≡ some n → q.pid ≢ some n

abbrev pub DistinctPids : List Process → Type 0
DistinctPids [] = Unit
DistinctPids (p ∷ ps) = All (OtherPid p) ps × DistinctPids ps

pub record HasPids (k : Kernel) : Type 0 where
  pub below : All (Below k.pid) k.process_table
  pub distinct : DistinctPids k.process_table

module _ (forkret next : ℕ) where
  -- A process with an older id differs from the new one.
  other_new : (p q : Process) → Below next p → OtherPid p (taken forkret next q)
  other_new p q b n e x = omega (arith, b n e, some_inj x)
    where
      some_inj : some next ≡ some n → next ≡ n
      some_inj y = cc

  new_other : (p q : Process) → Below next q → OtherPid (taken forkret next p) q
  new_other p q b n e x = other_new q p b n x e

  All-set :
      (P : Process → Type 0) {ps : List Process} {i : ℕ} {q : Process}
      → FirstUnused ps i q
      → All P ps
      → P (taken forkret next q)
      → All P (set ps i (taken forkret next q))
  All-set P (here _) h x = (x, h.1)
  All-set P (later _ first) h x = (h.0, All-set P first h.1 x)

  distinct-set :
      {ps : List Process} {i : ℕ} {q : Process}
      → FirstUnused ps i q
      → All (Below next) ps
      → DistinctPids ps
      → DistinctPids (set ps i (taken forkret next q))
  distinct-set (here {p} {ps} _) below d = (All-weaken ps (new_other p) below.1, d.1)
  distinct-set (later {p} {q} {ps} _ first) below d =
      (All-set (OtherPid p) first d.0 (other_new p q below.0), distinct-set first below.1 d.1)

-- `allocproc` returns with distinct ids below the next one, or panics for want of memory.
pub data Numbered (boxed : Bool) : Run Hart (Option ℕ × Kernel) → Type 0 where
  numbered :
      {found : Option ℕ} {k : Kernel} {h : Hart} → HasPids k → Numbered boxed (done (found, k) h)
  no_page : boxed ≡ false → Numbered boxed panic

-- With no lock held and a process id left, where the ids of the processes are distinct and below the
-- next one, `allocproc` keeps them so, whether it gives out an id or finds no slot; it panics only
-- where no page is left for the box of the trapframe.
pub allocproc-HasPids :
    (forkret : ℕ) (boxed : Bool) (k : Kernel) (h : Hart)
    → All IsUnlocked k.process_table
    → k.pid + 1 < word_mod
    → HasPids k
    → Numbered boxed (allocproc forkret boxed k h)
allocproc-HasPids forkret boxed k h free fits pids =
    kept (allocproc-Allocproc forkret boxed k h free fits)
  where
    kept : {r : Run Hart (Option ℕ × Kernel)} → Allocproc forkret boxed k h r → Numbered boxed r
    kept (no_slot all) = numbered pids
    kept (no_memory first fails) = no_page fails
    kept (slot {q} first boxes) = numbered (record {
      below =
          All-set forkret k.pid (Below (k.pid + 1)) first
            (All-weaken k.process_table (λ p b n e. omega (arith, b n e)) pids.below)
            (λ n e. ground arith);
      distinct = distinct-set forkret k.pid first pids.below pids.distinct;
    })
