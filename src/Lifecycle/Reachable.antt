-- ===== src/Lifecycle/Reachable.antt =====
-- No wakeup is lost in any table that the steps of the kernel reach.
use mathlib.Core.Bool.{false≢true}
use rust_baremetal.Prelude.{
  ℕ, ◌+◌, ◌≡◌, ◌∙◌, refl, sym, Bool, true, false, Option, none, some, List, map, get_elem?, set,
}
use rust_baremetal.Hart.{Hart, pop_interrupt_off}
use rust_baremetal.Machine.Outcome.{Run, done}
use rust_baremetal.Process.{
  Process, ProcState, Uvm, running, is_sleeping, is_zombie, unlock_manual, unlocked,
}
use rust_baremetal.Kernel.{Kernel}
use rust_baremetal.Kernel.Wakeup.{woken, wakeup-map}
use rust_baremetal.Kernel.Alloc
use rust_baremetal.Lifecycle.Fork.{Supplies}
use rust_baremetal.Process.Blank.{given_back}
use rust_baremetal.Kernel.Alloc.{taken, InUse, Allocproc, no_slot, slot, allocproc-Allocproc}
use rust_baremetal.Scheduler.Pick.{chosen_slot, Picked, idle, chosen, pick-Picked}
use rust_baremetal.Lifecycle.{Waited, is_running}
use rust_baremetal.Lifecycle.Exit.{All-get, after_exit, kexit-after_exit}
use rust_baremetal.Lifecycle.Fork.Slot.{forked_child, forked_parent, used_slot}
use rust_baremetal.Lifecycle.Fork.Outcome.{Kfork, no_room, no_space, forked, no_memory, kfork-Kfork}
use rust_baremetal.Lifecycle.Scan.{Alive}
use rust_baremetal.Lifecycle.Wait.{
  asleep, Kwait, child_reaped, cannot_free, bad_address, childless, goes_to_sleep, kwait-Kwait,
}
use rust_baremetal.Lifecycle.Wakeups.{
  NoLostWakeup, set-NoLostWakeup, after_exit-NoLostWakeup, woken-NoLostWakeup, same-NoLostWakeup,
}
use rust_baremetal.Lifecycle.Steps.{
  Step, exits, waits, allocates, forks, schedules, wakes, releases, resumes, Reach, start, then,
}

-- A slot that neither sleeps nor is a zombie takes the place of another one.
quiet-NoLostWakeup :
    (t : List Process) (i : ℕ) (v : Process)
    → NoLostWakeup t
    → is_sleeping v.state ≡ false
    → is_zombie v.state ≡ false
    → NoLostWakeup (set t i v)
quiet-NoLostWakeup t i v ok awake alive =
    set-NoLostWakeup t i v ok (λ s. absurd (false≢true (sym awake ∙ s))) (λ j p at s c. alive)

Kwait-NoLostWakeup :
    {fresh : Option Uvm} {status_addr : ℕ} {copied : Bool} {p : Process} {t t' : List Process}
    {h g : Hart} {result : Waited} {r : Run Hart (Waited × List Process)}
    → NoLostWakeup t
    → Kwait fresh status_addr copied p t h r
    → r ≡ done (result, t') g
    → NoLostWakeup t'
Kwait-NoLostWakeup {t} {t'} ok
      (child_reaped i {q} {uvm = uvm} at parent dead has_pid made good back) e =
    let same : set t i (given_back q uvm) ≡ t' = cc in
    rw (sym same) (quiet-NoLostWakeup t i (given_back q uvm) ok refl refl)
Kwait-NoLostWakeup ok (cannot_free i at parent dead fails) e = cc
Kwait-NoLostWakeup ok (bad_address i at parent dead address fails) e = cc
Kwait-NoLostWakeup {t} {t'} ok (childless no_kid back) e =
    let same : t ≡ t' = cc in rw (sym same) ok
Kwait-NoLostWakeup {p} {t} {t'} ok (goes_to_sleep k {q} any all at own back) e =
    let same : set t k (asleep q) ≡ t' = cc in
    rw (sym same) (
      set-NoLostWakeup t k (asleep q) ok
        (λ s j b at_j c. All-get (Alive p.pid) t j all at_j (c ∙ own)) (λ i a at_i s c. refl))

Allocproc-NoLostWakeup :
    {forkret : ℕ} {boxed : Bool} {k k' : Kernel} {h g : Hart} {found : Option ℕ}
    {r : Run Hart (Option ℕ × Kernel)}
    → NoLostWakeup k.process_table
    → Allocproc forkret boxed k h r
    → r ≡ done (found, k') g
    → NoLostWakeup k'.process_table
Allocproc-NoLostWakeup {k} {k'} ok (no_slot all) e = let same : k ≡ k' = cc in rw (sym same) ok
Allocproc-NoLostWakeup ok (Alloc.no_memory first fails) e = cc
Allocproc-NoLostWakeup {forkret} {k} {k'} ok (slot {i} {q} first boxes) e =
    let same : record {
      process_table = set k.process_table i (taken forkret k.pid q);
      pid = k.pid + 1;
    }
        ≡ k' =
      cc in
    rw (sym same) (quiet-NoLostWakeup k.process_table i (taken forkret k.pid q) ok refl refl)

Kfork-NoLostWakeup :
    {forkret self : ℕ} {supplies : Supplies} {p : Process} {k k' : Kernel} {h g : Hart}
    {result : Option ℕ} {r : Run Hart (Option ℕ × Kernel)}
    → get_elem? k.process_table self ≡ some p
    → InUse p
    → NoLostWakeup k.process_table
    → Kfork forkret supplies self p k h r
    → r ≡ done (result, k') g
    → NoLostWakeup k'.process_table
Kfork-NoLostWakeup {k} {k'} at in_use ok (no_room all back) e =
    let same : k ≡ k' = cc in rw (sym same) ok
Kfork-NoLostWakeup {forkret} {p} {k} {k'} at in_use ok (no_space {i} {q} first _ _ fails back) e =
    let child : Process = record (taken forkret k.pid q) { trapframe = p.trapframe } in
    let same : record { process_table = set k.process_table i child; pid = k.pid + 1 } ≡ k' = cc in
    rw (sym same) (quiet-NoLostWakeup k.process_table i child ok refl refl)
Kfork-NoLostWakeup {forkret} {self} {p} {k} {k'} at in_use ok
      (forked {i} {q} {uvm} first _ _ made back) e =
    let child = forked_child forkret k.pid uvm p q in
    let t = set k.process_table i child in
    let same : record { process_table = set t self (forked_parent k.pid p); pid = k.pid + 1 } ≡ k' =
      cc in
    rw (sym same) (
      same-NoLostWakeup t self p (forked_parent k.pid p) (used_slot child self first at in_use) refl
        refl refl (quiet-NoLostWakeup k.process_table i child ok refl refl))
Kfork-NoLostWakeup at in_use ok (no_memory first fails) e = cc

Picked-NoLostWakeup :
    {t t' : List Process} {h g : Hart} {found : Option ℕ} {r : Run Hart (Option ℕ × List Process)}
    → NoLostWakeup t
    → Picked t h r
    → r ≡ done (found, t') g
    → NoLostWakeup t'
Picked-NoLostWakeup {t} {t'} ok (idle none_runs back) e = let same : t ≡ t' = cc in rw (sym same) ok
Picked-NoLostWakeup {t} {t'} ok (chosen {i} {p} at can_run first back) e =
    let same : set t i (chosen_slot p) ≡ t' = cc in
    rw (sym same) (quiet-NoLostWakeup t i (chosen_slot p) ok refl refl)

-- Only the lock of a process changes when it is released.
unlocked_lem :
    (p q : Process) (found : Option Hart) (h g : Hart)
    → unlocked p found h ≡ done q g
    → record p { lock = false } ≡ q
unlocked_lem p q none h g e = cc
unlocked_lem p q (some h') h g e = cc

unlock_manual_lem :
    (p q : Process) (h g : Hart) → unlock_manual p h ≡ done q g → record p { lock = false } ≡ q
unfolding unlock_manual
unlock_manual_lem p q h g e = unlocked_lem p q (pop_interrupt_off h) h g e

running_awake :
    (s : ProcState) → is_running s ≡ true → (is_sleeping s ≡ false) × (is_zombie s ≡ false)
running_awake running e = (refl, refl)
running_awake _ e = cc

Step-NoLostWakeup :
    {forkret : ℕ} {t t' : List Process} → NoLostWakeup t → Step forkret t t' → NoLostWakeup t'
Step-NoLostWakeup {t} {t'} ok (exits self xstatus p h at unlocked other not_own w outer ran) =
    let (g, ends, _) = kexit-after_exit self xstatus p t at unlocked other not_own h w outer in
    let same : after_exit self xstatus p t ≡ t' = cc in
    rw (sym same) (after_exit-NoLostWakeup self xstatus p t not_own ok)
Step-NoLostWakeup {t} {t'} ok
      (waits fresh status_addr copied self p h at unlocked named w outer ran) =
    Kwait-NoLostWakeup ok
      (kwait-Kwait fresh status_addr copied self p t h at unlocked named w outer) ran
Step-NoLostWakeup {forkret} ok (allocates boxed k h unlocked fits ran) =
    Allocproc-NoLostWakeup ok (allocproc-Allocproc forkret boxed k h unlocked fits) ran
Step-NoLostWakeup {forkret} ok (forks supplies self p k h at in_use unlocked fits w ran) =
    Kfork-NoLostWakeup at in_use ok
      (kfork-Kfork forkret supplies self p k h at in_use unlocked fits w) ran
Step-NoLostWakeup {t} ok (schedules h unlocked w ran) =
    Picked-NoLostWakeup ok (pick-Picked t h unlocked w) ran
Step-NoLostWakeup {t} {t'} ok (wakes channel h unlocked w ran) =
    let (g, ends, _) = wakeup-map channel t h unlocked w in
    let same : map (woken channel) t ≡ t' = cc in rw (sym same) (woken-NoLostWakeup channel t ok)
Step-NoLostWakeup {t} ok (releases i p h {g} {q} at ran) =
    rw (sym (unlock_manual_lem p q h g ran))
      (same-NoLostWakeup t i p (record p { lock = false }) at refl refl refl ok)
Step-NoLostWakeup {t} ok (resumes i p h {g} {q} at runs ran) =
    let woke = record p { sleep_channel = none } in
    rw (sym (unlock_manual_lem woke q h g ran)) (
      quiet-NoLostWakeup t i (record woke { lock = false }) ok (running_awake p.state runs).0
        (running_awake p.state runs).1)

-- Whatever the kernel does from a table where no wakeup is lost, none is lost: a process that ends
-- is never missed by a parent that waits for it, in whichever order the operations run.
pub Reach-NoLostWakeup :
    {forkret : ℕ} {t t' : List Process} → NoLostWakeup t → Reach forkret t t' → NoLostWakeup t'
Reach-NoLostWakeup ok start = ok
Reach-NoLostWakeup ok (then run step) = Step-NoLostWakeup (Reach-NoLostWakeup ok run) step
