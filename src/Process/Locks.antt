-- ===== src/Process/Locks.antt =====
-- The lock of a process: when it is free it is taken at once, and it can always be released.
use rust_baremetal.Prelude.{◌≡◌, refl, true, false, some}
use rust_baremetal.Hart.{Hart, after_push, pop_interrupt_off}
use rust_baremetal.Machine.Outcome.{done}
use rust_baremetal.Process.{Process, lock_manual, unlock_manual}

-- Nobody holds the lock of a process.
abbrev pub IsUnlocked : Process → Type 0
IsUnlocked p = p.lock ≡ false

pub lock_manual_free :
    (p : Process) (h : Hart)
    → IsUnlocked p
    → lock_manual p h ≡ done (record p { lock = true }) (after_push h)
unfolding lock_manual
lock_manual_free p h e = simp e

pub unlock_manual_held :
    (p : Process) (h : Hart) {h' : Hart}
    → pop_interrupt_off h ≡ some h'
    → unlock_manual p h ≡ done (record p { lock = false }) h'
unfolding unlock_manual
unlock_manual_held p h e = rw e refl
