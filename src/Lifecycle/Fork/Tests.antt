-- ===== src/Lifecycle/Fork/Tests.antt =====
-- A shell that forks.
use rust_baremetal.Prelude.{refl, arith, true, false, some, [], ◌∷◌, All}
use rust_baremetal.Hart.{Hart}
use rust_baremetal.Hart.Nesting.{IsHart}
use rust_baremetal.Process.{Process, Uvm, new, sleeping, running}
use rust_baremetal.Process.Locks.{IsUnlocked}
use rust_baremetal.Kernel.{Kernel}
use rust_baremetal.Lifecycle.Fork.{Supplies, complete, kfork}
use rust_baremetal.Lifecycle.Fork.Outcome.{Kfork, kfork-Kfork}

abbrev calm : Hart
calm = record { sstatus = 2; interrupt_off_stack = 0; interrupt_prev_state = false }

abbrev space : Uvm
space = record { begin = 0x10000; size = 0x3000; root = 0x80301000 }

abbrev init : Process
unfolding new
init = record (new 0 space) { pid = some 0; state = sleeping; sleep_channel = some 0 }

abbrev shell : Process
unfolding new
shell = record (new 1 space) { pid = some 1; state = running; parent = some 0 }

abbrev spare : Process
unfolding new
spare = new 2 space

abbrev kernel : Kernel
kernel = record { process_table = init ∷ shell ∷ spare ∷ []; pid = 2 }

calm-IsHart : IsHart calm
calm-IsHart = record { word = omega arith; held_off = λ h. absurd (omega (arith, h)) }

-- A page for each box, and the address space.
abbrev supplies : Supplies
supplies = record { first_box = true; second_box = true; space = complete space }

kernel-IsUnlocked : All IsUnlocked kernel.process_table
unfolding init shell spare
kernel-IsUnlocked = (refl, (refl, (refl, tt)))

kfork-Kfork_example :
    Kfork 0x80201234 supplies 1 shell kernel calm (kfork 0x80201234 supplies 1 kernel calm)
unfolding shell
kfork-Kfork_example =
    kfork-Kfork 0x80201234 supplies 1 shell kernel calm refl refl kernel-IsUnlocked (omega arith)
      calm-IsHart
