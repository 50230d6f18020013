-- ===== src/Lifecycle/Tests.antt =====
-- A shell that waits for its child, and the child that ends.
use rust_baremetal.Prelude.{◌≡◌, ◌≢◌, refl, arith, false, some, List, [], ◌∷◌, All}
use rust_baremetal.Hart.{Hart, after_push}
use rust_baremetal.Hart.Nesting.{IsHart, Restored}
use rust_baremetal.Machine.Outcome.{done}
use rust_baremetal.Process.{Process, Uvm, new, sleeping, running, is_zombie}
use rust_baremetal.Process.Locks.{IsUnlocked}
use rust_baremetal.Lifecycle.{kexit}
use rust_baremetal.Lifecycle.Exit.{after_exit, kexit-after_exit}
use rust_baremetal.Lifecycle.Wakeups.{NoLostWakeup, living-NoLostWakeup}
use rust_baremetal.Lifecycle.Steps.{Reach, start, then, exits}
use rust_baremetal.Lifecycle.Reachable.{Reach-NoLostWakeup}

abbrev idle : Hart
idle = record { sstatus = 2; interrupt_off_stack = 0; interrupt_prev_state = false }

abbrev space : Uvm
space = record { begin = 0x10000; size = 0x3000; root = 0x80301000 }

abbrev init : Process
unfolding new
init = record (new 0 space) { pid = some 0; state = sleeping; sleep_channel = some 0 }

abbrev shell : Process
unfolding new
shell = record (new 1 space) {
  pid = some 1;
  state = sleeping;
  sleep_channel = some 1;
  parent = some 0;
}

abbrev child : Process
unfolding new
child = record (new 2 space) { pid = some 2; state = running; parent = some 1 }

abbrev processes : List Process
processes = init ∷ shell ∷ child ∷ []

idle-IsHart : IsHart idle
idle-IsHart = record { word = omega arith; held_off = λ h. absurd (omega (arith, h)) }

processes-IsUnlocked : All IsUnlocked processes
unfolding init shell child
processes-IsUnlocked = (refl, (refl, (refl, tt)))

processes-alive : All (λ p. is_zombie p.state ≡ false) processes
unfolding init shell child
processes-alive = (refl, (refl, (refl, tt)))

processes-NoLostWakeup : NoLostWakeup processes
processes-NoLostWakeup = living-NoLostWakeup processes processes-alive

child-pid : child.pid ≢ some 0
unfolding child
child-pid e = cc

child-parent : child.parent ≢ child.pid
unfolding child
child-parent e = cc

kexit-after_exit_example :
    (g : Hart) × (kexit 2 7 processes idle ≡ done (after_exit 2 7 child processes) g)
    × Restored (after_push idle) g
kexit-after_exit_example =
    kexit-after_exit 2 7 child processes refl processes-IsUnlocked child-pid child-parent idle
      idle-IsHart refl

-- The child ends while the shell sleeps.
child_ends : Reach 0x80201234 processes (after_exit 2 7 child processes)
child_ends = then start (
    exits 2 7 child idle refl processes-IsUnlocked child-pid child-parent idle-IsHart refl
      kexit-after_exit_example.1)

Reach-NoLostWakeup_example : NoLostWakeup (after_exit 2 7 child processes)
Reach-NoLostWakeup_example = Reach-NoLostWakeup processes-NoLostWakeup child_ends
