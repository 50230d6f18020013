-- ===== src/Kernel/Alloc.antt =====
-- `allocproc`: it takes the first unused slot, and process ids stay distinct.
use rust_baremetal.Prelude.{
  ℕ, zero, suc, ◌+◌, ◌<◌, ◌≡◌, inl, inr, refl, arith, Bool, true, false, Option, none, some, List,
  [], ◌∷◌, All, Bool-cases, set, ltb,
}
use native.Mathlib.Nat.{zero-add}
use rust_baremetal.Prelude.Word.{word_mod}
use rust_baremetal.Hart.{Hart, after_push}
use rust_baremetal.Machine.Outcome.{Run, done, panic, and_then}
use rust_baremetal.Process.{Process, used, is_unused}
use rust_baremetal.Process.Blank.{no_trapframe, no_context}
use rust_baremetal.Process.Locks.{IsUnlocked, lock_manual_free}
use rust_baremetal.Kernel.{Kernel, Allocated, take_slot, alloc_from, allocproc}

-- The slot at an index is the first that is unused.
pub data FirstUnused : List Process → ℕ → Process → Type 0 where
  here : {p : Process} {ps : List Process} → is_unused p.state ≡ true → FirstUnused (p ∷ ps) zero p
  later :
      {p q : Process} {ps : List Process} {i : ℕ}
      → is_unused p.state ≡ false
      → FirstUnused ps i q
      → FirstUnused (p ∷ ps) (suc i) q

abbrev pub InUse : Process → Type 0
InUse p = is_unused p.state ≡ false

-- A slot for a new process: it will start in `forkret` on top of its kernel stack.
abbrev pub taken : ℕ → ℕ → Process → Process
taken forkret pid p = record p {
  pid = some pid;
  state = used;
  trapframe = no_trapframe;
  lock = true;
  context = record no_context { ra = forkret; sp = p.stack + 8192 };
}

take_slot_lem :
    (forkret pid : ℕ) (p : Process) (h : Hart)
    → IsUnlocked p
    → take_slot forkret true pid p h ≡ done (taken forkret pid p) (after_push h)
unfolding take_slot
take_slot_lem forkret pid p h free =
    rw
      (lock_manual_free (record p { pid = some pid; state = used; trapframe = no_trapframe }) h
        free)
      refl

-- What the loop returns from index `i` on.
data Outcome (forkret : ℕ) (boxed : Bool) (pid i : ℕ) (ps : List Process) (h : Hart)
    : Run Hart Allocated → Type 0 where
  full :
      All InUse ps
      → Outcome forkret boxed pid i ps h
          (done (record { slot = none; next_pid = pid; table = ps }) h)
  found :
      {j k : ℕ} {q : Process}
      → FirstUnused ps j q
      → k ≡ i + j
      → boxed ≡ true
      → Outcome forkret boxed pid i ps h (
          done
            (record { slot = some k; next_pid = pid + 1; table = set ps j (taken forkret pid q) })
            (after_push h))
  no_box :
      {j : ℕ} {q : Process}
      → FirstUnused ps j q
      → boxed ≡ false
      → Outcome forkret boxed pid i ps h panic

-- A slot in use is passed over.
Outcome-cons :
    {forkret : ℕ} {boxed : Bool} {pid i : ℕ} {p : Process} {ps : List Process} {h : Hart}
    {r : Run Hart Allocated}
    → InUse p
    → Outcome forkret boxed pid (i + 1) ps h r
    → Outcome forkret boxed pid i
        (p ∷ ps)
        h
        (and_then r (λ a. done (record a { table = p ∷ a.table })))
Outcome-cons in_use (full all) = full (in_use, all)
Outcome-cons in_use (found {j} first e boxes) =
    found {j = suc j} (later in_use first) (omega arith) boxes
Outcome-cons in_use (no_box first fails) = no_box (later in_use first) fails

alloc_from-Outcome :
    (forkret : ℕ) (boxed : Bool) (pid i : ℕ) (ps : List Process) (h : Hart)
    → All IsUnlocked ps
    → pid + 1 < word_mod
    → Outcome forkret boxed pid i ps h (alloc_from forkret boxed pid i ps h)
unfolding alloc_from
alloc_from-Outcome forkret boxed pid i [] h free fits = full tt
alloc_from-Outcome forkret boxed pid i (p ∷ ps) h free fits =
    elim (Bool-cases (is_unused p.state)) [
      | inl yes_unused ↦
          let add : ltb (pid + 1) word_mod ≡ true = ground arith in
          elim (Bool-cases boxed) [
            | inl boxes ↦
                rw (yes_unused, add, boxes, take_slot_lem forkret pid p h free.0)
                  (found {j = 0} (here yes_unused) (omega arith) refl)
            | inr fails ↦
                rw (yes_unused, add, fails) (unfold take_slot in no_box (here yes_unused) refl)
          ]
      | inr in_use ↦
          rw in_use
            (Outcome-cons in_use (alloc_from-Outcome forkret boxed pid (i + 1) ps h free.1 fits))
    ]

-- How `allocproc` ends.
pub data Allocproc (forkret : ℕ) (boxed : Bool) (k : Kernel) (h : Hart)
    : Run Hart (Option ℕ × Kernel) → Type 0 where
  no_slot : All InUse k.process_table → Allocproc forkret boxed k h (done (none, k) h)
  slot :
      {i : ℕ} {q : Process}
      → FirstUnused k.process_table i q
      → boxed ≡ true
      → Allocproc forkret boxed k h (
          done
            (
              some i,
              record {
                process_table = set k.process_table i (taken forkret k.pid q);
                pid = k.pid + 1;
              },
            )
            (after_push h))
  no_memory :
      {i : ℕ} {q : Process}
      → FirstUnused k.process_table i q
      → boxed ≡ false
      → Allocproc forkret boxed k h panic

Outcome-Allocproc :
    (forkret : ℕ) {boxed : Bool} (k : Kernel) {h : Hart} {r : Run Hart Allocated}
    → Outcome forkret boxed k.pid 0 k.process_table h r
    → Allocproc forkret boxed k h
        (and_then r (λ a. done (a.slot, record { process_table = a.table; pid = a.next_pid })))
Outcome-Allocproc forkret k (full all) = no_slot all
Outcome-Allocproc forkret k (found {j} {k = n} first e boxes) =
    rw e (rw zero-add (slot first boxes))
Outcome-Allocproc forkret k (no_box first fails) = no_memory first fails

-- With no lock held and a process id left, `allocproc` either finds every slot in use and changes
-- nothing; or panics, where no page is left for the box of the trapframe; or takes the first unused
-- slot: that process gets the next id, a fresh trapframe, a
-- context that starts in `forkret` on top of its kernel stack, and its lock is held; every other
-- slot stays as it is.
pub allocproc-Allocproc :
    (forkret : ℕ) (boxed : Bool) (k : Kernel) (h : Hart)
    → All IsUnlocked k.process_table
    → k.pid + 1 < word_mod
    → Allocproc forkret boxed k h (allocproc forkret boxed k h)
unfolding allocproc
allocproc-Allocproc forkret boxed k h free fits =
    Outcome-Allocproc forkret k
      (alloc_from-Outcome forkret boxed k.pid 0 k.process_table h free fits)
