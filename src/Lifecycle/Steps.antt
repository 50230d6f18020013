-- ===== src/Lifecycle/Steps.antt =====
-- The steps that the kernel takes on the process table, each a run of the operation, and the tables
-- that they reach.
use rust_baremetal.Prelude.{
  ℕ, ◌+◌, ◌<◌, ◌≡◌, ◌≢◌, Bool, true, Option, none, some, List, All, get_elem?, set,
}
use rust_baremetal.Prelude.Word.{word_mod}
use rust_baremetal.Hart.{Hart}
use rust_baremetal.Hart.Nesting.{IsHart}
use rust_baremetal.Machine.Outcome.{done}
use rust_baremetal.Process.{Process, Uvm, is_zombie, unlock_manual}
use rust_baremetal.Process.Locks.{IsUnlocked}
use rust_baremetal.Kernel.{Kernel, allocproc, wakeup}
use rust_baremetal.Kernel.Alloc.{InUse}
use rust_baremetal.Scheduler.{pick}
use rust_baremetal.Lifecycle.{kexit, kwait, Waited, is_running}
use rust_baremetal.Lifecycle.Fork.{Supplies, kfork}

-- Every zombie has an id.
abbrev pub Named : Process → Type 0
Named q = is_zombie q.state ≡ true → q.pid ≢ none

-- One operation of the kernel on the table.
pub data Step (forkret : ℕ) : List Process → List Process → Type 0 where
  exits :
      (self xstatus : ℕ) (p : Process) (h : Hart) {g : Hart} {t t' : List Process}
      → get_elem? t self ≡ some p
      → All IsUnlocked t
      → p.pid ≢ some 0
      → p.parent ≢ p.pid
      → IsHart h
      → h.interrupt_off_stack ≡ 0
      → kexit self xstatus t h ≡ done t' g
      → Step forkret t t'
  waits :
      (fresh : Option Uvm) (status_addr : ℕ) (copied : Bool) (self : ℕ) (p : Process) (h : Hart)
      {g : Hart} {t t' : List Process} {result : Waited}
      → get_elem? t self ≡ some p
      → All IsUnlocked t
      → All Named t
      → IsHart h
      → h.interrupt_off_stack ≡ 0
      → kwait fresh status_addr copied self t h ≡ done (result, t') g
      → Step forkret t t'
  allocates :
      (boxed : Bool) (k : Kernel) (h : Hart) {g : Hart} {k' : Kernel} {found : Option ℕ}
      → All IsUnlocked k.process_table
      → k.pid + 1 < word_mod
      → allocproc forkret boxed k h ≡ done (found, k') g
      → Step forkret k.process_table k'.process_table
  forks :
      (supplies : Supplies) (self : ℕ) (p : Process) (k : Kernel) (h : Hart) {g : Hart}
      {k' : Kernel} {result : Option ℕ}
      → get_elem? k.process_table self ≡ some p
      → InUse p
      → All IsUnlocked k.process_table
      → k.pid + 1 < word_mod
      → IsHart h
      → kfork forkret supplies self k h ≡ done (result, k') g
      → Step forkret k.process_table k'.process_table
  schedules :
      (h : Hart) {g : Hart} {t t' : List Process} {found : Option ℕ}
      → All IsUnlocked t
      → IsHart h
      → pick t h ≡ done (found, t') g
      → Step forkret t t'
  wakes :
      (channel : Option ℕ) (h : Hart) {g : Hart} {t t' : List Process}
      → All IsUnlocked t
      → IsHart h
      → wakeup channel t h ≡ done t' g
      → Step forkret t t'
  releases :
      (i : ℕ) (p : Process) (h : Hart) {g : Hart} {t : List Process} {q : Process}
      → get_elem? t i ≡ some p
      → unlock_manual p h ≡ done q g
      → Step forkret t (set t i q)
  resumes :
      (i : ℕ) (p : Process) (h : Hart) {g : Hart} {t : List Process} {q : Process}
      → get_elem? t i ≡ some p
      → is_running p.state ≡ true
      → unlock_manual (record p { sleep_channel = none }) h ≡ done q g
      → Step forkret t (set t i q)

pub data Reach (forkret : ℕ) (t : List Process) : List Process → Type 0 where
  start : Reach forkret t t
  then : {t1 t2 : List Process} → Reach forkret t t1 → Step forkret t1 t2 → Reach forkret t t2
