-- ===== src/Lifecycle.antt =====
-- How a process ends and is waited for: `kexit` and `kwait` of kernel/src/process.rs, and the checks
-- of `sched`. A function is followed up to the context switch; `self` is the slot of the
-- process that calls it.
pub mod Exec
pub mod Exit
pub mod Fork
pub mod Wait
pub mod Scan
pub mod Sleep
pub mod Steps
pub mod Reachable
pub mod Wakeups
mod Tests
use rust_baremetal.Prelude.{
  ℕ, zero, suc, Bool, true, false, not, Option, none, some, List, [], ◌∷◌, opt_eq, get_elem?, set,
  ◌==◌, ◌||◌, if◌then◌else◌,
}
use rust_baremetal.Hart.{Hart, after_push, pop_interrupt_off, interrupt_read}
use rust_baremetal.Hart.Guard.{guarded}
use rust_baremetal.Machine.Outcome.{M, done, panic, pure, ◌>>=◌, ◌>>◌, expect}
use rust_baremetal.Process.{
  Process, ProcState, running, sleeping, zombie, is_zombie, Uvm, free, lock_manual, unlock_manual,
}
use rust_baremetal.Kernel.{reparent, wakeup}

abbrev pub is_running : ProcState → Bool
is_running running = true
is_running _ = false

-- `sched` up to the switch; it returns the interrupt state that it keeps for the way back.
pub sched : ProcState → M Hart Bool
sched current = λ h.
    if interrupt_read h
    then panic
    else if not (h.interrupt_off_stack == 1)
    then panic
    else if is_running current
    then panic
    else done h.interrupt_prev_state h

-- The last block of `kexit`: the process is locked, and becomes a zombie.
abbrev pub become_zombie : ℕ → Process → M Hart Process
become_zombie xstatus p = do
  p ← lock_manual p
  pure (record p { xstatus = xstatus; state = zombie })

-- The block of `kexit` under its own lock.
pub exit_block : ℕ → ℕ → Process → List Process → M Hart (List Process)
exit_block self xstatus p table = do
  table ← guarded (reparent p.pid table)
  p ← expect (get_elem? table self)
  table ← guarded (wakeup p.parent table)
  p ← expect (get_elem? table self)
  p ← become_zombie xstatus p
  pure (set table self p)

pub kexit : ℕ → ℕ → List Process → M Hart (List Process)
unfolding exit_block sched
kexit self xstatus table = do
  p ← expect (get_elem? table self)
  table ← if opt_eq p.pid (some 0) then (λ h. panic) else guarded (exit_block self xstatus p table)
  _ ← sched zombie
  pure table

-- What the scan of `kwait` has found.
pub record Kids : Type 0 where
  pub has_kids : Bool
  pub zombie_pid : Option ℕ
  pub zombie_xstatus : ℕ

-- The `for` of `kwait`; `fresh` is what a slot that is freed gets, or none where `free` panics.
pub scan_kids : Option Uvm → Option ℕ → List Process → M Hart (Kids × List Process)
scan_kids fresh parent_pid [] =
    pure (record { has_kids = false; zombie_pid = none; zombie_xstatus = 0 }, [])
scan_kids fresh parent_pid (p ∷ ps) =
    let rest = scan_kids fresh parent_pid ps in
    if opt_eq p.parent parent_pid
    then (do
      p ← lock_manual p
      if is_zombie p.state
          then (do
            q ← free fresh p
            q ← unlock_manual q
            pure (
              record { has_kids = true; zombie_pid = p.pid; zombie_xstatus = p.xstatus },
              q ∷ ps,
            ))
          else (do
            p ← unlock_manual p
            (kids, ps) ← rest
            pure (record kids { has_kids = true }, p ∷ ps)))
    else (do (kids, ps) ← rest; pure (kids, p ∷ ps))

-- The waiting process publishes that it sleeps, with its lock held.
pub park : Option ℕ → List Process → M Hart (List Process)
park parent_pid [] = λ h. panic
park parent_pid (p ∷ ps) =
    let rest = (do ps ← park parent_pid ps; pure (p ∷ ps)) in
    if opt_eq p.pid parent_pid
    then (do
      p ← lock_manual p
      pure (record p { sleep_channel = parent_pid; state = sleeping } ∷ ps))
    else rest

-- How a round of `kwait` ends: a child was reaped, there is none, or the process sleeps.
pub data Waited : Type 0 where
  reaped : ℕ → ℕ → Waited
  no_kids : Waited
  sleeps : Waited

abbrev pub waited : Kids → Waited
waited kids = elim kids.zombie_pid [
  | some pid ↦ reaped pid kids.zombie_xstatus
  | none ↦ if kids.has_kids then sleeps else no_kids
]

-- The block of `kwait` under the kernel's lock.
pub wait_block : Option Uvm → Option ℕ → List Process → M Hart (Waited × List Process)
unfolding scan_kids park
wait_block fresh parent_pid table = do
  (kids, table) ← scan_kids fresh parent_pid table
  table ← elim (waited kids) [ sleeps ↦ park parent_pid table | _ ↦ pure table ]
  pure (waited kids, table)

-- `copy_out(…, status_addr, …).unwrap()` of a child's status; `copied` says whether `copy_out`
-- succeeds.
pub report : (status_addr : ℕ) → (copied : Bool) → M Hart (Unit {0})
report status_addr copied = if status_addr == 0 || copied then pure tt else (λ h. panic)

-- A round of `kwait`, up to the return or to the switch. The status of a child is returned with its
-- id; the code writes it to `status_addr` in the caller's memory.
pub kwait :
    Option Uvm
    → (status_addr : ℕ) → (copied : Bool) → ℕ
    → List Process
    → M Hart (Waited × List Process)
unfolding wait_block sched report
kwait fresh status_addr copied self table = do
  p ← expect (get_elem? table self)
  (result, table) ← guarded (wait_block fresh p.pid table)
  elim result [
    | sleeps ↦ sched sleeping >> pure (sleeps, table)
    | no_kids ↦ pure (no_kids, table)
    | reaped pid status ↦ report status_addr copied >> pure (reaped pid status, table)
  ]
